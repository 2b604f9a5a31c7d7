-- ===== src/SendBuffer/Buffer.antt =====
-- The state of a send buffer and its operations, each under the buffer's mutex.
use vitaki_vitarps.Base.{
  is_success, ℕ, zero, suc, ◌+◌, ◌-◌, ◌^◌, Bool, false, ◌||◌, List, [], ◌∷◌, ◌++◌, Option, none,
  some, ltb, leb, ◌==◌, not, if◌then◌else◌, get_or, set, take, drop, replicate, map, ErrorCode,
  success, memory, overflow, invalid_data,
}

-- `buf` is the pointer to the packet's bytes, which the buffer owns.
pub record Packet : Type 0 where
  pub seq_num : ℕ
  pub tries : ℕ
  pub last_send_ms : ℕ
  pub buf : ℕ
  pub buf_size : ℕ

-- `packets` is the array of `packets_size` entries, of which the first `packets_count` are in use.
pub record Buffer : Type 0 where
  pub packets : List Packet
  pub packets_size : ℕ
  pub packets_count : ℕ
  pub should_stop : Bool

abbrev pub blank : Packet
blank = record { seq_num = 0; tries = 0; last_send_ms = 0; buf = 0; buf_size = 0 }

-- What an operation does besides: a pointer handed to `free`, a signal of the condition variable, a
-- packet handed to the socket, an overflow reported to the stream connection.
pub data Effect : Type 0 where
  free : ℕ → Effect
  signal : Effect
  send_raw : ℕ → ℕ → Effect
  report_overflow : Effect

-- The results of `calloc`, `mutex_init`, `cond_init` and `thread_create`.
pub record Platform : Type 0 where
  pub calloc_ok : Bool
  pub mutex_init : ErrorCode
  pub cond_init : ErrorCode
  pub thread_create : ErrorCode

-- The error paths free the array, which leaves no buffer.
unfoldable pub init : Platform → ℕ → ErrorCode × Option Buffer
init p size =
    if not p.calloc_ok
    then (memory, none)
    else if not (is_success p.mutex_init)
    then (p.mutex_init, none)
    else if not (is_success p.cond_init)
    then (p.cond_init, none)
    else if not (is_success p.thread_create)
    then (p.thread_create, none)
    else (
      success,
      some (record {
        packets = replicate size blank;
        packets_size = size;
        packets_count = 0;
        should_stop = false;
      }),
    )

-- The packets in use, in the order of the array.
abbrev pub in_use : Buffer → List Packet
in_use b = take b.packets_count b.packets

-- What `fini` frees.
unfoldable pub fini : Buffer → List Effect
fini b = map (λ p. free p.buf) (in_use b)

unfoldable pub has_seq_num : ℕ → List Packet → Bool
has_seq_num seq_num [] = false
has_seq_num seq_num (p ∷ ps) = p.seq_num == seq_num || has_seq_num seq_num ps

-- `lock` is the result of locking the mutex, `now` the monotonic time, `report` whether a stream
-- connection is there to report to.
unfoldable pub push : ErrorCode → Bool → ℕ → Buffer → ℕ → ℕ → ℕ → ErrorCode × Buffer × List Effect
unfolding has_seq_num
push lock report now b seq_num buf buf_size =
    if not (is_success lock)
    then (lock, b, [])
    else if leb b.packets_size b.packets_count
    then (overflow, b, (if report then report_overflow ∷ [] else []) ++ (free buf ∷ []))
    else if has_seq_num seq_num (in_use b)
    then (invalid_data, b, free buf ∷ [])
    else (
      success,
      record b {
        packets = set b.packets b.packets_count packet;
        packets_count = b.packets_count + 1;
      },
      if b.packets_count + 1 == 1 then signal ∷ [] else [],
    )
  where
    packet : Packet
    packet = record {
      seq_num = seq_num;
      tries = 0;
      last_send_ms = now;
      buf = buf;
      buf_size = buf_size;
    }

-- `memmove` of `n` entries from index `src` to index `dst`, within the array.
abbrev pub memmove : List Packet → ℕ → ℕ → ℕ → List Packet
memmove packets dst src n =
    take dst packets ++ (take n (drop src packets) ++ drop (dst + n) packets)

abbrev pub size_max : ℕ
size_max = 2 ^ 64 - 1

-- The variables of the loop of `ack`: the array, the gap `shift_start`, `shift`, the sequence
-- numbers written to `acked_seq_nums`, the pointers freed.
pub record Gap : Type 0 where
  pub packets : List Packet
  pub shift : ℕ
  pub shift_start : ℕ
  pub acked : List ℕ
  pub freed : List ℕ

abbrev pub ack_packet : ℕ → Gap → Gap
ack_packet i g =
    let p = get_or g.packets i blank in
    let g' : Gap = record g {
      acked = g.acked ++ (p.seq_num ∷ []);
      freed = g.freed ++ (p.buf ∷ []);
    } in
    if g.shift_start == size_max
    then record g' { shift_start = i; shift = 1 }
    else if g.shift_start + g.shift == i
    then record g' { shift = g.shift + 1 }
    else record g' {
      packets =
          memmove g.packets g.shift_start (g.shift_start + g.shift) (i - (g.shift_start + g.shift));
      shift_start = i - g.shift;
      shift = g.shift + 1;
    }

-- The final shift, and the new count.
abbrev pub close_gap : ℕ → Gap → List Packet × ℕ
close_gap count g = if g.shift_start == size_max then (g.packets, count) else (
  if ltb (g.shift_start + g.shift) count
      then memmove g.packets g.shift_start (g.shift_start + g.shift)
          (count - (g.shift_start + g.shift))
      else g.packets,
  count - g.shift,
)

module _ (lt : ℕ → ℕ → Bool) where
  abbrev pub acks : ℕ → Packet → Bool
  acks seq_num p = p.seq_num == seq_num || lt p.seq_num seq_num

  -- The loop from index `i`, with the rounds left.
  unfoldable pub ack_from : ℕ → ℕ → ℕ → Gap → Gap
  ack_from seq_num zero i g = g
  ack_from seq_num (suc n) i g =
      ack_from seq_num n (i + 1)
        (if acks seq_num (get_or g.packets i blank) then ack_packet i g else g)

  -- The result has the numbers written to `acked_seq_nums`, and the effects.
  unfoldable pub ack : ErrorCode → Buffer → ℕ → ErrorCode × Buffer × List ℕ × List Effect
  unfolding ack_from
  ack lock b seq_num =
      let start : Gap = record {
        packets = b.packets;
        shift = 0;
        shift_start = size_max;
        acked = [];
        freed = [];
      } in
      let g = ack_from seq_num b.packets_count 0 start in
      let (packets, count) = close_gap b.packets_count g in
      if not (is_success lock) then (lock, b, [], []) else (
        success,
        record b { packets = packets; packets_count = count },
        g.acked,
        map free g.freed,
      )
