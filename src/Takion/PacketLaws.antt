-- ===== src/Takion/PacketLaws.antt =====
-- Codes set by the sender of a datagram and checked by its receiver.
use mathlib.Core.List.{append_assoc, append-nil}
use vitaki_vitarps.Base.{
  ℕ, suc, ◌+◌, ◌%◌, ◌^◌, ◌<◌, ◌≡◌, ◌≢◌, ◌∙◌, refl, sym, ap, ap₂, true, false, List, [], ◌∷◌, ◌++◌,
  length, drop, if◌then◌else◌, ok, arith, ge→ltb, some, Bool-cases, inl, inr, length-append,
  success, invalid_mac, drop-append,
}
use vitaki_vitarps.Frame.Processor.{memcpy, slice, same_bytes}
use vitaki_vitarps.Takion.Bytes.{
  htonl, ntohl, ntohl-append, ntohl-htonl, memcpy-segment, slice-segment,
}
use vitaki_vitarps.Takion.KeyState.{KeyState, request_pos, request_pos_near, commit}
use vitaki_vitarps.Takion.Message.{zeros}
use vitaki_vitarps.Takion.Packet.{
  GkCrypt, packet_type_mac_offset, packet_type_key_pos_offset, is_blanked, stamp, packet_mac,
  packet_read_key_pos, handle_packet_mac,
}

pub same_bytes_refl : (xs : List ℕ) → same_bytes xs xs ≡ true
same_bytes_refl [] = refl
same_bytes_refl (x ∷ xs) = ground (arith, same_bytes_refl xs)

pub same_bytes→eq : (xs ys : List ℕ) → same_bytes xs ys ≡ true → xs ≡ ys
same_bytes→eq [] [] h = refl
same_bytes→eq [] (y ∷ ys) h = absurd (ground arith)
same_bytes→eq (x ∷ xs) [] h = absurd (ground arith)
same_bytes→eq (x ∷ xs) (y ∷ ys) h = ap₂ ◌∷◌ (ground arith) (same_bytes→eq xs ys (ground arith))

memcpy-second :
    (A M K R bytes : List ℕ) (n : ℕ)
    → n ≡ length A + length M
    → length bytes ≡ length K
    → memcpy (A ++ (M ++ (K ++ R))) n bytes ≡ A ++ (M ++ (bytes ++ R))
memcpy-second A M K R bytes n hn hk =
    ap (λ b. memcpy b n bytes) (sym (append_assoc A M (K ++ R)))
    ∙ memcpy-segment (A ++ M) K R bytes n (omega (arith, length-append A M)) hk
    ∙ append_assoc A M (bytes ++ R)

slice-second :
    (A M K R : List ℕ) (n m : ℕ)
    → n ≡ length A + length M
    → m ≡ length K
    → slice (A ++ (M ++ (K ++ R))) n m ≡ K
slice-second A M K R n m hn hm =
    ap (λ b. slice b n m) (sym (append_assoc A M (K ++ R)))
    ∙ slice-segment (A ++ M) K R n m (omega (arith, length-append A M)) hm

-- A datagram: its type and what is before the code, the code, the position, and the rest.
pub record Datagram : Type 0 where
  pub type : ℕ
  pub front : List ℕ
  pub code : List ℕ
  pub pos : List ℕ
  pub rest : List ℕ

abbrev pub bytes_of : Datagram → List ℕ
bytes_of d = d.type ∷ (d.front ++ (d.code ++ (d.pos ++ d.rest)))

-- The code stands where that of its type does.
pub record IsLaidOut (d : Datagram) : Type 0 where
  pub at : packet_type_mac_offset (d.type % 2 ^ 4) ≡ some (suc (length d.front))
  pub code : length d.code ≡ 4
  pub pos : length d.pos ≡ 4

-- What the code is computed of.
abbrev pub input : Datagram → List ℕ
input d =
    bytes_of (record d { code = zeros; pos = if is_blanked (d.type % 2 ^ 4) then zeros else d.pos })

abbrev pub with_code : Datagram → List ℕ → Datagram
with_code d code = record d { code = code }

stamp-bytes :
    (gmac : GkCrypt) (d : Datagram) (key_pos : ℕ)
    → IsLaidOut d
    → ((p : ℕ) (buf : List ℕ) → length (gmac p buf) ≡ 4)
    → stamp (some gmac) (bytes_of d) key_pos (suc (length d.front)) (suc (length d.front) + 4)
      ≡ bytes_of (with_code d (gmac key_pos (input d)))
unfolding stamp
stamp-bytes gmac d key_pos l g =
    let F = d.type ∷ d.front in
    let n = suc (length d.front) in
    let G = gmac key_pos (input d) in
    elim (Bool-cases (is_blanked (d.type % 2 ^ 4))) [
      | inl e ↦
          rw
            (
              e,
              memcpy-segment F d.code (d.pos ++ d.rest) zeros n refl (sym l.code),
              slice-second F zeros d.pos d.rest (n + 4) 4 refl (sym l.pos),
              memcpy-second F zeros d.pos d.rest zeros (n + 4) refl (sym l.pos),
              memcpy-segment F zeros (zeros ++ d.rest)
                  (gmac key_pos (F ++ (zeros ++ (zeros ++ d.rest)))) n refl (g _ _),
              memcpy-second F (gmac key_pos (F ++ (zeros ++ (zeros ++ d.rest)))) zeros d.rest d.pos
                  (n + 4) (ap (◌+◌ n) (sym (g _ _))) l.pos,
            )
            refl
      | inr e ↦
          let cleared = memcpy-segment F d.code (d.pos ++ d.rest) zeros n refl (sym l.code) in
          rw e (
            ap (λ b. memcpy b n (gmac key_pos b)) cleared
            ∙ memcpy-segment F zeros (d.pos ++ d.rest) _ n refl (g _ _))
    ]

offset-key_pos :
    (type n : ℕ)
    → packet_type_mac_offset type ≡ some n
    → packet_type_key_pos_offset type ≡ some (n + 4)
unfolding packet_type_mac_offset packet_type_key_pos_offset
offset-key_pos type n h = ground arith

length-bytes_of :
    (d : Datagram) → IsLaidOut d → length (bytes_of d) ≡ suc (length d.front) + 8 + length d.rest
length-bytes_of d l = omega (
  arith,
  l.code,
  l.pos,
  length-append d.front (d.code ++ (d.pos ++ d.rest)),
  length-append d.code (d.pos ++ d.rest),
  length-append d.pos d.rest,
)

-- The code of a datagram, and the code that was there.
pub packet_mac-bytes :
    (gmac : GkCrypt) (d : Datagram) (key_pos : ℕ)
    → IsLaidOut d
    → ((p : ℕ) (buf : List ℕ) → length (gmac p buf) ≡ 4)
    → let code = gmac key_pos (input d) in
      packet_mac (some gmac) (bytes_of d) key_pos ≡ ok (bytes_of (with_code d code), code, d.code)
unfolding packet_mac
packet_mac-bytes gmac d key_pos l g =
    let F = d.type ∷ d.front in
    let n = suc (length d.front) in
    let code = gmac key_pos (input d) in
    rw
      (
        l.at,
        offset-key_pos (d.type % 2 ^ 4) n l.at,
        stamp-bytes gmac d key_pos l g,
        slice-segment F d.code (d.pos ++ d.rest) n 4 refl (sym l.code),
        slice-segment F code (d.pos ++ d.rest) n 4 refl (sym (g _ _)),
        ge→ltb (length (bytes_of d)) (n + 4) (omega (arith, length-bytes_of d l)),
        ge→ltb (length (bytes_of d)) (n + 4 + 4) (omega (arith, length-bytes_of d l)),
        ge→ltb (length (bytes_of d)) 1 (omega arith),
      )
      refl

-- The last position that the receiver committed is less than 2 ^ 31 away.
pub record IsNear (state : KeyState) (key_pos : ℕ) : Type 0 where
  pub pos_in : key_pos < 2 ^ 64
  pub prev_in : state.prev < 2 ^ 64
  pub up : key_pos < state.prev + 2 ^ 31
  pub down : state.prev < key_pos + 2 ^ 31

-- The position that the receiver takes a datagram's to be.
abbrev pub position : KeyState → Datagram → ℕ
position state d = (request_pos state (ntohl d.pos) false).0

read_key_pos-bytes :
    (state : KeyState) (d : Datagram)
    → IsLaidOut d
    → packet_read_key_pos state (bytes_of d) ≡ ok (position state d)
unfolding packet_read_key_pos
read_key_pos-bytes state d l =
    let F = d.type ∷ d.front in
    let n = suc (length d.front) in
    let at_pos : drop (n + 4) (bytes_of d) ≡ d.pos ++ d.rest =
      drop-append F (d.code ++ (d.pos ++ d.rest)) (n + 4) 4 refl
      ∙ drop-append d.code (d.pos ++ d.rest) 4 0 (omega (arith, l.code)) in
    rw
      (
        offset-key_pos (d.type % 2 ^ 4) n l.at,
        ge→ltb (length (bytes_of d)) 1 (omega arith),
        ge→ltb (length (bytes_of d)) (n + 4 + 4) (omega (arith, length-bytes_of d l)),
        at_pos,
      )
      (ap (λ low. ok (request_pos state low false).0) (ntohl-append d.pos d.rest l.pos))

position-near :
    (state : KeyState) (d : Datagram) (key_pos : ℕ)
    → d.pos ≡ htonl (key_pos % 2 ^ 32)
    → IsNear state key_pos
    → position state d ≡ key_pos
position-near state d key_pos hp near =
    ap (λ bytes. (request_pos state (ntohl bytes) false).0)
      (hp ∙ sym (append-nil (htonl (key_pos % 2 ^ 32))))
    ∙ ap (λ low. (request_pos state low false).0) (ntohl-htonl (key_pos % 2 ^ 32) [] (omega arith))
    ∙ ap (λ r. r.0)
        (request_pos_near state key_pos false near.pos_in near.prev_in near.up near.down)

handle_packet_mac-bytes :
    (gmac : GkCrypt) (state : KeyState) (d : Datagram) (key_pos : ℕ)
    → IsLaidOut d
    → position state d ≡ key_pos
    → ((p : ℕ) (buf : List ℕ) → length (gmac p buf) ≡ 4)
    → let code = gmac key_pos (input d) in
      handle_packet_mac (some gmac) state (bytes_of d) ≡ (
        if same_bytes code d.code
        then (success, record { prev = key_pos }, bytes_of (with_code d code))
        else (invalid_mac, state, bytes_of (with_code d code)))
unfolding handle_packet_mac commit
handle_packet_mac-bytes gmac state d key_pos l at g =
    rw
      (
        read_key_pos-bytes state d l ∙ ap ok at,
        packet_mac-bytes gmac d key_pos l g,
        handle_packet_mac,
      )
      refl

-- A datagram whose code the sender set for a position that is in the packet, and less than 2 ^ 31
-- away from the receiver's last one, is accepted by a receiver with the same key, and is left as it
-- was sent; the position becomes the last one. The packet's type is one that has a code.
pub handle_packet_mac-packet_mac :
    (gmac : GkCrypt) (state : KeyState) (d : Datagram) (key_pos : ℕ)
    → IsLaidOut d
    → d.pos ≡ htonl (key_pos % 2 ^ 32)
    → IsNear state key_pos
    → ((p : ℕ) (buf : List ℕ) → length (gmac p buf) ≡ 4)
    → (sent : List ℕ) × (code : List ℕ) × (packet_mac (some gmac) (bytes_of d) key_pos
        ≡ ok (sent, code, d.code))
      × (handle_packet_mac (some gmac) state sent ≡ (success, record { prev = key_pos }, sent))
handle_packet_mac-packet_mac gmac state d key_pos l hp near g =
    let code = gmac key_pos (input d) in
    let l' : IsLaidOut (with_code d code) = record {
      at = l.at;
      code = g key_pos (input d);
      pos = l.pos;
    } in
    (
      bytes_of (with_code d code),
      code,
      packet_mac-bytes gmac d key_pos l g,
      handle_packet_mac-bytes gmac state (with_code d code) key_pos l'
            (position-near state (with_code d code) key_pos hp near) g
          ∙ ap
              (λ same.
                if same
                then (success, record { prev = key_pos }, bytes_of (with_code d code))
                else (invalid_mac, state, bytes_of (with_code d code)))
              (same_bytes_refl code),
    )

-- With any other code than that of its position, as the receiver takes it, a datagram is refused, and
-- the receiver's last position stays.
pub handle_packet_mac_refuses :
    (gmac : GkCrypt) (state : KeyState) (d : Datagram)
    → IsLaidOut d
    → ((p : ℕ) (buf : List ℕ) → length (gmac p buf) ≡ 4)
    → d.code ≢ gmac (position state d) (input d)
    → (buf' : List ℕ) × (handle_packet_mac (some gmac) state (bytes_of d)
        ≡ (invalid_mac, state, buf'))
handle_packet_mac_refuses gmac state d l g differs =
    let key_pos = position state d in
    let code = gmac key_pos (input d) in
    let whole = handle_packet_mac-bytes gmac state d key_pos l refl g in
    elim (Bool-cases (same_bytes code d.code)) [
      | inl e ↦ absurd (differs (sym (same_bytes→eq code d.code e)))
      | inr e ↦ (
        bytes_of (with_code d code),
        whole
            ∙ ap
                (λ same.
                  if same
                  then (success, record { prev = key_pos }, bytes_of (with_code d code))
                  else (invalid_mac, state, bytes_of (with_code d code)))
                e,
      )
    ]
