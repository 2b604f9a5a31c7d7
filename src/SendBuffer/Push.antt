-- ===== src/SendBuffer/Push.antt =====
-- What `push` adds, and when it refuses.
use vitaki_vitarps.Base.{
  ℕ, zero, suc, ◌+◌, ◌<◌, ◌≡◌, ◌⊎◌, refl, ap, ◌∙◌, Bool, true, false, List, [], ◌∷◌, ◌++◌, arith,
  length, take, set, length-set, ◌==◌, if◌then◌else◌, success, overflow, invalid_data, gt→leb, ◌&&◌,
}
use vitaki_vitarps.SendBuffer.Buffer.{
  Packet, Buffer, push, in_use, free, signal, report_overflow, has_seq_num,
}
use vitaki_vitarps.SendBuffer.Ack.{IsValid}

abbrev pub packet_of : ℕ → ℕ → ℕ → ℕ → Packet
packet_of now seq_num buf buf_size = record {
  seq_num = seq_num;
  tries = 0;
  last_send_ms = now;
  buf = buf;
  buf_size = buf_size;
}

take-set_end :
    (xs : List Packet) (n : ℕ) (x : Packet)
    → n < length xs
    → take (suc n) (set xs n x) ≡ take n xs ++ x ∷ []
take-set_end [] n x h = absurd (omega arith)
take-set_end (y ∷ ys) zero x h = refl
take-set_end (y ∷ ys) (suc n) x h = ap (◌∷◌ y) (take-set_end ys n x (omega arith))

module _ (report : Bool) (now : ℕ) (b : Buffer) (seq_num buf buf_size : ℕ) (v : IsValid b) where
  -- A packet with a number of its own goes to the end of a buffer with room, untried and dated
  -- `now`; the thread is woken when the buffer was empty.
  pub push_adds :
      b.packets_count < b.packets_size
      → has_seq_num seq_num (in_use b) ≡ false
      → let (e, r, effects) = push success report now b seq_num buf buf_size in
        (e ≡ success)
        × (in_use r ≡ in_use b ++ packet_of now seq_num buf buf_size ∷ [])
        × (effects ≡ (if b.packets_count == 0 then signal ∷ [] else []))
        × IsValid r
        × (r.packets_size ≡ b.packets_size)
  unfolding push
  push_adds room new =
      let next : b.packets_count + 1 ≡ suc b.packets_count = omega arith in
      rw (gt→leb b.packets_size b.packets_count room, new)
        (
          refl,
          ap (λ n. take n (set b.packets b.packets_count (packet_of now seq_num buf buf_size))) next
              ∙ take-set_end b.packets b.packets_count (packet_of now seq_num buf buf_size)
                  (omega (arith, v.array)),
          ground arith,
          record {
            array =
                length-set b.packets b.packets_count (packet_of now seq_num buf buf_size) ∙ v.array;
            count_in = omega arith;
            size_small = v.size_small;
          },
          refl,
        )

  -- A full buffer, and one that holds the number already, stay as they are, and the bytes are freed.
  pub push_refuses :
      (b.packets_count ≡ b.packets_size) ⊎ (has_seq_num seq_num (in_use b) ≡ true)
      → let (e, r, effects) = push success report now b seq_num buf buf_size in
        (e ≡ (if b.packets_count == b.packets_size then overflow else invalid_data))
        × (r ≡ b)
        × (effects ≡ (
            if b.packets_count == b.packets_size && report
            then report_overflow ∷ free buf ∷ []
            else free buf ∷ []))
  unfolding push
  push_refuses why = ground (arith, v.count_in)
