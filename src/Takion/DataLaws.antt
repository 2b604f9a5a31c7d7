-- ===== src/Takion/DataLaws.antt =====
-- The handlers of the data channel: what arrives is handled, what is dropped is all that could be
-- pulled, and acknowledgements fit their array.
use vitaki_vitarps.Base.{
  ℕ, zero, suc, ◌+◌, ◌*◌, ◌%◌, ◌^◌, ◌≤◌, ◌<◌, ◌≡◌, ◌≢◌, ◌⊎◌, inl, inr, refl, sym, ap, ◌∙◌, true,
  false, Option, none, some, arith, ◌==◌, Bool-cases, Option-cases, subst, List, [], ◌∷◌, ◌++◌,
  length, ge→ltb, not, success, map, length-take, length-keep_if, drop,
}
use vitaki_vitarps.Frame.Processor.{ntohs}
use vitaki_vitarps.SeqNum.{half_32, seq_num_32_lt}
use vitaki_vitarps.SeqNum.Window.{distance}
use vitaki_vitarps.ReorderQueue.Queue.{Queue, Dropped, ops_32}
use vitaki_vitarps.ReorderQueue.Valid.{slot}
use vitaki_vitarps.ReorderQueue.Push.{push}
use vitaki_vitarps.ReorderQueue.Ops.{pull}
use vitaki_vitarps.ReorderQueue.Pull.{pull_delivers, pull_waits}
use vitaki_vitarps.ReorderQueue.FirstSet.{IsLive, IsTail-IsLive, push-IsLive}
use mathlib.Core.List.{append-nil}
use vitaki_vitarps.SendBuffer.Ack
use vitaki_vitarps.SendBuffer.Ack.{ack_lem, taken}
use vitaki_vitarps.SendBuffer.Buffer.{Buffer, Packet, in_use, acks}
use vitaki_vitarps.SendBuffer.Takion.{takion_ack}
use vitaki_vitarps.Takion.Bytes.{ntohl}
use vitaki_vitarps.Takion.Jitter.{arrive, log_jitter_summary}
use vitaki_vitarps.Takion.DataQueue.{
  Takion, Effect, free_entry, send_data_ack, event_data_ack, data_drops, entry_of, flush_data_queue,
  handle_packet_message_data, drop_from, drop_data_queue, handle_packet_message_data_ack,
}
use vitaki_vitarps.Takion.Rounds.{data_drops-queue}
use vitaki_vitarps.Takion.FlushLaws.{flush_data_queue_ends}

abbrev received : ℕ → ℕ → Takion → Queue → List Dropped → List ℕ → ℕ → List ℕ → Takion × List Effect
received now_us drop_ms t q calls packet_buf type_b payload =
    data_drops drop_ms
      (record t {
        data_queue = q;
        entries = t.entries ++ (entry_of packet_buf type_b payload now_us ∷ []);
        jitter_stats = arrive t.jitter_stats now_us;
      })
      calls

data-pushed :
    (now_us drop_ms : ℕ) (clock : ℕ → ℕ × ℕ) (end_ms : ℕ) (t : Takion) (packet_buf : List ℕ)
    (type_b : ℕ) (payload : List ℕ) (q : Queue) (calls : List Dropped) (t' : Takion)
    (effects : List Effect)
    → 9 ≤ length payload
    → push ops_32 t.data_queue
        (ntohl payload)
        (length (t.entries ++ (entry_of packet_buf type_b payload now_us ∷ [])))
      ≡ some (q, calls)
    → flush_data_queue clock end_ms (received now_us drop_ms t q calls packet_buf type_b payload).0
      ≡ some (t', effects)
    → handle_packet_message_data true now_us drop_ms clock end_ms t packet_buf type_b payload
      ≡ some (t', (received now_us drop_ms t q calls packet_buf type_b payload).1 ++ effects)
unfolding handle_packet_message_data
data-pushed now_us drop_ms clock end_ms t packet_buf type_b payload q calls t' effects h e f =
    rw (ge→ltb (length payload) 9 h, e, f, handle_packet_message_data) refl

-- A packet of at least 9 bytes that comes while the queue is live is handled to the end, whatever
-- its number is, but for the number half the circle away from the first missing one on an empty
-- queue; and the queue stays live. (The entry is allocated.)
pub handle_packet_message_data_ends :
    (now_us drop_ms : ℕ) (clock : ℕ → ℕ × ℕ) (end_ms : ℕ) (t : Takion) (packet_buf : List ℕ)
    (type_b : ℕ) (payload : List ℕ)
    → IsLive t.data_queue
    → 9 ≤ length payload
    → ntohl payload < 2 ^ 32
    → (t.data_queue.count ≢ 0) ⊎ (distance half_32 t.data_queue.begin (ntohl payload) ≢ half_32)
    → (t' : Takion) × (effects : List Effect) × (handle_packet_message_data true now_us drop_ms
          clock end_ms t packet_buf type_b payload
        ≡ some (t', effects))
      × IsLive t'.data_queue
handle_packet_message_data_ends now_us drop_ms clock end_ms t packet_buf type_b payload v h hs
      apart =
    let (q, calls, e, w) = push-IsLive t.data_queue (ntohl payload) _ v hs apart in
    let t1 = received now_us drop_ms t q calls packet_buf type_b payload in
    let same = (data_drops-queue drop_ms _ calls).0 in
    let (t', effects, f, settled) =
      flush_data_queue_ends clock end_ms t1.0 (subst IsLive (sym same) w) in
    (
      record t' { jitter_stats = log_jitter_summary t'.jitter_stats end_ms false },
      t1.1 ++ effects,
      data-pushed now_us drop_ms clock end_ms t packet_buf type_b payload q calls _ effects h e f,
      settled.live,
    )

drop_stop :
    (n : ℕ) (q : Queue) (ack : Option ℕ)
    → pull ops_32 q ≡ some (q, none)
    → drop_from (suc n) q ack ≡ some (q, ack, [])
unfolding drop_from
drop_stop n q ack e = rw (e, drop_from) refl

drop_more :
    (n : ℕ) (q r q' : Queue) (ack ack' : Option ℕ) (s u : ℕ) (more : List Effect)
    → pull ops_32 q ≡ some (r, some (s, u))
    → drop_from n r (some s) ≡ some (q', ack', more)
    → drop_from (suc n) q ack ≡ some (q', ack', free_entry u ∷ more)
unfolding drop_from
drop_more n q r q' ack ack' s u more e f = rw (e, f, drop_from) refl

abbrev Dropping : ℕ → Queue → Option ℕ → Type 0
Dropping n q ack =
    (r : Queue) × (ack' : Option ℕ) × (effects : List Effect) × (drop_from n q ack
      ≡ some (r, ack', effects))
    × IsLive r
    × (slot r 0 ≡ none)
    × (length effects + r.count ≡ q.count)

drop_from-Dropping :
    (n : ℕ) (q : Queue) (ack : Option ℕ) → IsLive q → q.count < n → Dropping n q ack
drop_from-Dropping zero q ack v h = absurd (omega arith)
drop_from-Dropping (suc n) q ack v h = elim (Option-cases (slot q 0)) [
  | inl e ↦ (q, ack, [], drop_stop n q ack (pull_waits q v.valid e), v, e, omega arith)
  | inr (u, e) ↦
      let (r, eq, tail) = pull_delivers q u v.valid e in
      let (q', ack', more, f, live, head, sum) =
        drop_from-Dropping n r (some q.begin) (IsTail-IsLive q r v tail)
          (omega (arith, tail.count)) in
      (
        q',
        ack',
        free_entry u ∷ more,
        drop_more n q r q' ack ack' q.begin u more eq f,
        live,
        head,
        omega (arith, sum, tail.count),
      )
]

abbrev acks_of : Option ℕ → List Effect
acks_of none = []
acks_of (some seq_num) = send_data_ack (seq_num % 2 ^ 32) ∷ []

abbrev number_of : Option ℕ → ℕ
number_of none = 0
number_of (some seq_num) = seq_num % 2 ^ 32

dropped-all :
    (t : Takion) (q : Queue) (ack : Option ℕ) (effects : List Effect)
    → drop_from (suc t.data_queue.count) t.data_queue none ≡ some (q, ack, effects)
    → drop_data_queue t ≡ some (number_of ack, record t { data_queue = q }, effects ++ acks_of ack)
unfolding drop_data_queue
dropped-all t q none effects e =
    rw (e, drop_data_queue)
      (ap (λ es. some (0, record t { data_queue = q }, es)) (sym (append-nil effects)))
dropped-all t q (some s) effects e = rw (e, drop_data_queue) refl

-- Dropping the data queue from a live one ends: it frees an entry for each place that the window
-- loses, before the acknowledgement if there is one, and the first packet of what is left is
-- missing.
pub drop_data_queue_ends :
    (t : Takion)
    → IsLive t.data_queue
    → (number : ℕ) × (q : Queue) × (freed acks : List Effect) × (drop_data_queue t
        ≡ some (number, record t { data_queue = q }, freed ++ acks))
      × IsLive q
      × (slot q 0 ≡ none)
      × (length freed + q.count ≡ t.data_queue.count)
drop_data_queue_ends t v =
    let (q, ack, effects, e, live, head, sum) =
      drop_from-Dropping (suc t.data_queue.count) t.data_queue none v (omega arith) in
    (number_of ack, q, effects, acks_of ack, dropped-all t q ack effects e, live, head, sum)

length-map : (f : ℕ → Effect) (xs : List ℕ) → length (map f xs) ≡ length xs
length-map f [] = refl
length-map f (x ∷ xs) = ap suc (length-map f xs)

length_of_numbers : (ps : List Packet) → length (map (λ p. p.seq_num) ps) ≡ length ps
length_of_numbers [] = refl
length_of_numbers (p ∷ ps) = ap suc (length_of_numbers ps)

abbrev pub send_buffer_size : ℕ
send_buffer_size = 16

-- An acknowledgement makes no more events, and so writes no more numbers into the array for them,
-- than the array has places, when the send buffer is valid and has its size of 16; the buffer stays
-- valid, and keeps its size.
pub handle_packet_message_data_ack_fits :
    (buffer : Buffer) (buf : List ℕ)
    → Ack.IsValid buffer
    → buffer.packets_size ≡ send_buffer_size
    → let (buffer', effects) = handle_packet_message_data_ack success buffer buf in
      (length effects ≤ send_buffer_size)
      × Ack.IsValid buffer'
      × (buffer'.packets_size ≡ send_buffer_size)
unfolding handle_packet_message_data_ack takion_ack
handle_packet_message_data_ack_fits buffer buf v hs =
    let (e, used, acked, effects, valid, size) = ack_lem seq_num_32_lt buffer (ntohl buf) v in
    elim (Bool-cases (not (length buf == 12))) [
      | inl h ↦ rw h (omega arith, v, hs)
      | inr h ↦ elim (Bool-cases (not (length buf == ntohs (drop 8 buf) * 4 + 12))) [
        | inl g ↦ rw (h, g) (omega arith, v, hs)
        | inr g ↦
            rw (h, g)
              (
                omega (
                  arith,
                  length-map event_data_ack (takion_ack success buffer (ntohl buf)).2,
                  ap length acked,
                  length_of_numbers (taken seq_num_32_lt (ntohl buf) (in_use buffer)),
                  length-keep_if (acks seq_num_32_lt (ntohl buf)) (in_use buffer),
                  length-take buffer.packets_count buffer.packets
                      (omega (arith, v.array, v.count_in)),
                  v.count_in,
                  hs,
                ),
                valid,
                size ∙ hs,
              )
      ]
    ]
