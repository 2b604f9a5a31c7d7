-- ===== src/Takion/DataQueue.antt =====
-- The data channel: packets in the order of their numbers, gaps given up on when they are too old.
use vitaki_vitarps.Base.{
  ℕ, zero, suc, ◌+◌, ◌-◌, ◌*◌, ◌%◌, ◌^◌, Bool, false, not, ◌||◌, List, [], ◌∷◌, ◌++◌, length,
  get_or, drop, map, ltb, ◌==◌, if◌then◌else◌, Option, none, some, ErrorCode,
}
use vitaki_vitarps.Frame.Processor.{ntohs}
use vitaki_vitarps.ReorderQueue.Queue.{Queue, Dropped, ops_32}
use vitaki_vitarps.ReorderQueue.Push.{push}
use vitaki_vitarps.ReorderQueue.Ops.{pull, find_first_set, skip_gap}
use vitaki_vitarps.SendBuffer.Buffer.{Buffer}
use vitaki_vitarps.SendBuffer.Takion.{takion_ack}
use vitaki_vitarps.Takion.Bytes.{ntohl}
use vitaki_vitarps.Takion.AvPacket.{TakionAvPacket}
use vitaki_vitarps.Takion.Jitter.{JitterStats, threshold_us, sub_u64, arrive, log_jitter_summary}

-- `TakionDataPacketEntry`; `payload` has the `payload_size` bytes.
pub record DataPacketEntry : Type 0 where
  pub packet_buf : List ℕ
  pub type_b : ℕ
  pub payload : List ℕ
  pub channel : ℕ
  pub arrival_time_us : ℕ

-- The member `recv_drop_stats` of `ChiakiTakion`.
pub record DropStats : Type 0 where
  pub drops_since_log : ℕ
  pub last_log_ms : ℕ
  pub last_seq_num : ℕ

-- The members of `ChiakiTakion` that the data channel uses. `entries` is the heap: the pointer of
-- the entry at index `i` is `i + 1`, and an entry that was freed stays. `cb` and `stream_connection`
-- are whether they are set.
pub record Takion : Type 0 where
  pub data_queue : Queue
  pub entries : List DataPacketEntry
  pub jitter_stats : JitterStats
  pub recv_drop_stats : DropStats
  pub cb : Bool
  pub stream_connection : Bool

-- What the data channel does besides: an event of the type DATA with its data type and bytes, one of
-- the type DATA_ACK, an acknowledgement sent, a drop reported to the stream connection, an entry
-- freed with its packet, a datagram freed, an event of the type AV.
pub data Effect : Type 0 where
  event_data : ℕ → List ℕ → Effect
  event_data_ack : ℕ → Effect
  send_data_ack : ℕ → Effect
  report_drop : Effect
  free_entry : ℕ → Effect
  free_buf : Effect
  event_av : TakionAvPacket → Effect

abbrev pub no_entry : DataPacketEntry
no_entry = record { packet_buf = []; type_b = 0; payload = []; channel = 0; arrival_time_us = 0 }

abbrev pub entry_at : Takion → ℕ → DataPacketEntry
entry_at t user = get_or t.entries (user - 1) no_entry

-- The callback `takion_data_drop`, with the log of the drops, which resets their count. Takion
-- and its log are set.
unfoldable pub data_drop : ℕ → Takion → Dropped → Takion × List Effect
data_drop now_ms t d =
    let drops = (t.recv_drop_stats.drops_since_log + 1) % 2 ^ 64 in
    (
      record t {
        recv_drop_stats = record {
          drops_since_log = 0;
          last_log_ms = if drops == 0 then t.recv_drop_stats.last_log_ms else now_ms;
          last_seq_num = d.seq_num;
        };
      },
      (if t.stream_connection then report_drop ∷ [] else [])
          ++ (if d.elem_user == 0 then [] else free_entry d.elem_user ∷ []),
    )

unfoldable pub data_drops : ℕ → Takion → List Dropped → Takion × List Effect
unfolding data_drop
data_drops now_ms t [] = (t, [])
data_drops now_ms t (d ∷ ds) =
    let (t', effects) = data_drop now_ms t d in
    let (t'', more) = data_drops now_ms t' ds in (t'', effects ++ more)

-- PROTOBUF, RUMBLE, 9, TRIGGER_EFFECTS
abbrev pub is_data_type : ℕ → Bool
is_data_type type = type == 0 || type == 7 || type == 9 || type == 11

-- What is done with an entry that was pulled.
unfoldable pub deliver : Takion → ℕ → List Effect
deliver t user =
    let payload = (entry_at t user).payload in
    let data_type = get_or payload 8 0 in
    (if ltb (length payload) 9
      then []
      else if is_data_type data_type
      then if t.cb then event_data data_type (drop 9 payload) ∷ [] else []
      else [])
    ++ (free_entry user ∷ [])

-- What a round of the loop of `takion_flush_data_queue` comes to: a packet with its number, a gap
-- skipped, or the end.
pub data Round : Type 0 where
  pulled : ℕ → Round
  skipped : Round
  stopped : Round

abbrev pub skip_head : ℕ → Takion → ℕ → Takion × Round × List Effect
skip_head now_ms t gap_seq_num =
    let (q, calls) = skip_gap ops_32 t.data_queue in
    let (t', effects) =
      data_drops now_ms
        (record t {
          data_queue = q;
          jitter_stats = record (t.jitter_stats) {
            last_skipped_seq_num = gap_seq_num;
            gaps_skipped = (t.jitter_stats.gaps_skipped + 1) % 2 ^ 64;
          };
        })
        calls in
    (t', skipped, effects)

-- By what `find_first_set` gives, behind a gap: the clock gives `now_us`, and `now_ms` to the drop
-- callback.
unfoldable pub behind_gap :
    ℕ → ℕ → Takion → Queue × Option (ℕ × ℕ × ℕ) → Takion × Round × List Effect
unfolding data_drops
behind_gap now_us now_ms t (q, none) = (record t { data_queue = q }, stopped, [])
behind_gap now_us now_ms t (q, some (index, _, user)) =
    let age = sub_u64 now_us (entry_at t user).arrival_time_us in
    let t' : Takion = record t {
      data_queue = q;
      jitter_stats = record (t.jitter_stats) {
        last_first_set_offset = index;
        last_head_gap_age_us = age;
      };
    } in
    if ltb (threshold_us t.jitter_stats.jitter_us) age
    then skip_head now_ms t' t.data_queue.begin
    else (t', stopped, [])

-- What follows a failed `pull`.
unfoldable pub at_gap : ℕ → ℕ → Takion → Takion × Round × List Effect
unfolding behind_gap
at_gap now_us now_ms t =
    if t.data_queue.count == 0
    then (t, stopped, [])
    else behind_gap now_us now_ms t (find_first_set ops_32 t.data_queue)

-- A round of the loop; `none` is a failed assertion.
unfoldable pub flush_round : ℕ → ℕ → Takion → Option (Takion × Round × List Effect)
unfolding deliver at_gap
flush_round now_us now_ms t = elim (pull ops_32 t.data_queue) [
  | none ↦ none
  | some (q, none) ↦ some (at_gap now_us now_ms (record t { data_queue = q }))
  | some (q, some (seq_num, user)) ↦
      some (record t { data_queue = q }, pulled seq_num, deliver t user)
]

-- The loop, with the number last pulled, on fuel; `clock k` is what the clock gives with `k` rounds
-- left, in microseconds and in milliseconds.
unfoldable pub flush_from :
    (ℕ → ℕ × ℕ) → ℕ → Takion → Option ℕ → Option (Takion × Option ℕ × List Effect)
unfolding flush_round
flush_from clock zero t ack = none
flush_from clock (suc n) t ack = elim (flush_round (clock n).0 (clock n).1 t) [
  | none ↦ none
  | some (t', stopped, effects) ↦ some (t', ack, effects)
  | some (t', skipped, effects) ↦ elim (flush_from clock n t' ack) [
    | none ↦ none
    | some (t'', ack', more) ↦ some (t'', ack', effects ++ more)
  ]
  | some (t', pulled seq_num, effects) ↦ elim (flush_from clock n t' (some seq_num)) [
    | none ↦ none
    | some (t'', ack', more) ↦ some (t'', ack', effects ++ more)
  ]
]

abbrev pub ack_effects : Option ℕ → List Effect
ack_effects none = []
ack_effects (some seq_num) = send_data_ack (seq_num % 2 ^ 32) ∷ []

-- The loop gets one round more than the window has places in use; `end_ms` is the time after it.
unfoldable pub flush_data_queue : (ℕ → ℕ × ℕ) → ℕ → Takion → Option (Takion × List Effect)
unfolding flush_from
flush_data_queue clock end_ms t = elim (flush_from clock (suc t.data_queue.count) t none) [
  | none ↦ none
  | some (t', ack, effects) ↦ some (
    record t' { jitter_stats = log_jitter_summary t'.jitter_stats end_ms false },
    effects ++ ack_effects ack,
  )
]

-- The entry of a packet with a payload of at least 9 bytes.
abbrev pub entry_of : List ℕ → ℕ → List ℕ → ℕ → DataPacketEntry
entry_of packet_buf type_b payload now_us = record {
  packet_buf = packet_buf;
  type_b = type_b;
  payload = payload;
  channel = ntohs (drop 4 payload);
  arrival_time_us = now_us;
}

-- `malloc_ok` is whether the entry is allocated, `now_us` the time of arrival, and
-- `drop_ms` the time of the calls of the drop callback.
unfoldable pub handle_packet_message_data :
    Bool → ℕ → ℕ → (ℕ → ℕ × ℕ) → ℕ → Takion → List ℕ → ℕ → List ℕ → Option (Takion × List Effect)
unfolding flush_data_queue data_drops
handle_packet_message_data malloc_ok now_us drop_ms clock end_ms t packet_buf type_b payload =
    let entries = t.entries ++ (entry_of packet_buf type_b payload now_us ∷ []) in
    if ltb (length payload) 9 || not malloc_ok
    then some (t, [])
    else elim (push ops_32 t.data_queue (ntohl payload) (length entries)) [
      | none ↦ none
      | some (q, calls) ↦
          let (t', drops) =
            data_drops drop_ms
              (record t {
                data_queue = q;
                entries = entries;
                jitter_stats = arrive t.jitter_stats now_us;
              })
              calls in
          elim (flush_data_queue clock end_ms t') [
            | none ↦ none
            | some (t'', effects) ↦ some (t'', drops ++ effects)
          ]
    ]

-- The loop of `takion_drop_data_queue_locked`, with the number last pulled, on fuel.
unfoldable pub drop_from : ℕ → Queue → Option ℕ → Option (Queue × Option ℕ × List Effect)
drop_from zero q ack = none
drop_from (suc n) q ack = elim (pull ops_32 q) [
  | none ↦ none
  | some (q', none) ↦ some (q', ack, [])
  | some (q', some (seq_num, user)) ↦ elim (drop_from n q' (some seq_num)) [
    | none ↦ none
    | some (q'', ack', more) ↦ some (q'', ack', free_entry user ∷ more)
  ]
]

-- The result is the number acknowledged, 0 when nothing is dropped.
unfoldable pub drop_data_queue : Takion → Option (ℕ × Takion × List Effect)
unfolding drop_from
drop_data_queue t = elim (drop_from (suc t.data_queue.count) t.data_queue none) [
  | none ↦ none
  | some (q, none, effects) ↦ some (0, record t { data_queue = q }, effects)
  | some (q, some seq_num, effects) ↦ some (
    seq_num % 2 ^ 32,
    record t { data_queue = q },
    effects ++ (send_data_ack (seq_num % 2 ^ 32) ∷ []),
  )
]

-- The acknowledgement of the console: `lock` is the result of the send buffer's mutex.
unfoldable pub handle_packet_message_data_ack : ErrorCode → Buffer → List ℕ → Buffer × List Effect
handle_packet_message_data_ack lock buffer buf =
    let (_, buffer', acked, _) = takion_ack lock buffer (ntohl buf) in
    if not (length buf == 12)
    then (buffer, [])
    else if not (length buf == ntohs (drop 8 buf) * 4 + 12)
    then (buffer, [])
    else (buffer', map event_data_ack acked)
