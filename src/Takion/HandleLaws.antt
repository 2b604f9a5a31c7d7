-- ===== src/Takion/HandleLaws.antt =====
-- What a datagram can do before its code is checked, and before there is a key.
use mathlib.Core.Option.{none-ne-some}
use vitaki_vitarps.Base.{
  length-append, ℕ, ◌≤◌, ◌≡◌, ◌≢◌, ◌⊎◌, inl, inr, refl, sym, ap, ◌∙◌, true, Bool, Option, none,
  some, arith, List, [], ◌∷◌, length, success, ◌<◌, ◌++◌, false, Bool-cases, leb, ne→==,
}
use vitaki_vitarps.Takion.Message.{packet_type_video, packet_type_audio}
use vitaki_vitarps.Takion.Packet.{GkCrypt, base_type, handle_packet_mac}
use vitaki_vitarps.Takion.PacketLaws.{
  Datagram, IsLaidOut, bytes_of, input, position, handle_packet_mac_refuses,
}
use vitaki_vitarps.Takion.DataQueue.{free_buf}
use vitaki_vitarps.Takion.Handle.{
  Connection, Platform, postpone_packets_size, postpone_packet, handle_checked, handle_packet,
  waits_for_key,
}

-- With a key, a datagram that has a code and a position where its type has them is freed, and nothing
-- else is done or changed, whatever its position's bytes are, unless its code is that of the position
-- that the receiver makes of them. (A code has 4 bytes.)
pub handle_packet_refuses :
    (p : Platform) (c : Connection) (gmac : GkCrypt) (d : Datagram)
    → c.gkcrypt_remote ≡ some gmac
    → IsLaidOut d
    → ((k : ℕ) (buf : List ℕ) → length (gmac k buf) ≡ 4)
    → d.code ≢ gmac (position c.key_state d) (input d)
    → handle_packet p c (bytes_of d) ≡ some (c, free_buf ∷ [])
unfolding handle_packet
handle_packet_refuses p c gmac d key l g differs =
    let (buf', e) = handle_packet_mac_refuses gmac c.key_state d l g differs in
    rw (key, e, ne→== (length (bytes_of d)) 0 (omega arith)) refl

-- The packets of the list that `postponed_packets` points to.
abbrev pub postponed : Option (List (List ℕ)) → List (List ℕ)
postponed none = []
postponed (some packets) = packets

-- Whether there is room for one packet more: fewer than 32, and a list for them.
abbrev pub HasRoom : Bool → Option (List (List ℕ)) → Type 0
HasRoom calloc_ok packets =
    (length (postponed packets) < 32) × ((calloc_ok ≡ true) ⊎ (packets ≢ none))

abbrev pub IsFull : Bool → Option (List (List ℕ)) → Type 0
IsFull calloc_ok packets =
    (length (postponed packets) ≡ 32) ⊎ (calloc_ok ≡ false) × (packets ≡ none)

postpone_packet_lem :
    (calloc_ok : Bool) (packets : Option (List (List ℕ))) (buf : List ℕ)
    → length (postponed packets) ≤ postpone_packets_size
    → (HasRoom calloc_ok packets
        × (postpone_packet calloc_ok packets buf ≡ some (postponed packets ++ (buf ∷ []))))
      ⊎ (IsFull calloc_ok packets × (postpone_packet calloc_ok packets buf ≡ packets))
unfolding postpone_packet
postpone_packet_lem true none buf h = inl ((omega arith, inl refl), refl)
postpone_packet_lem false none buf h = inr (inr (refl, refl), refl)
postpone_packet_lem calloc_ok (some packets) buf h =
    elim (Bool-cases (leb postpone_packets_size (length packets))) [
      | inl full ↦ rw full (inr (inl (ground (arith, full, h)), refl))
      | inr room ↦
          rw room (inl ((ground (arith, room), inr (λ e. none-ne-some packets (sym e))), refl))
    ]

postpone_packet_fits :
    (calloc_ok : Bool) (packets : Option (List (List ℕ))) (buf : List ℕ)
    → length (postponed packets) ≤ postpone_packets_size
    → length (postponed (postpone_packet calloc_ok packets buf)) ≤ 32
unfolding postpone_packet
postpone_packet_fits true none buf h = omega arith
postpone_packet_fits false none buf h = omega arith
postpone_packet_fits calloc_ok (some packets) buf h =
    ground (arith, length-append packets (buf ∷ []))

no_key :
    (p : Platform) (c : Connection) (buf : List ℕ)
    → 1 ≤ length buf
    → c.gkcrypt_remote ≡ none
    → handle_packet p c buf ≡ handle_checked p c buf
unfolding handle_packet handle_packet_mac
no_key p c buf h key =
    let mac : handle_packet_mac c.gkcrypt_remote c.key_state buf ≡ (success, c.key_state, buf) =
      ap (λ k. handle_packet_mac k c.key_state buf) key in
    rw (mac, ne→== (length buf) 0 (omega arith)) refl

waits : (c : Connection) → c.enable_crypt ≡ true → c.gkcrypt_remote ≡ none → waits_for_key c ≡ true
unfolding waits_for_key
waits c crypt key = rw (crypt, key) refl

-- While encryption is enabled and there is no key, a packet of video or audio makes no event and
-- changes nothing but the postponed packets: it goes behind them, if there are fewer than 32 and
-- their list is or can be allocated, and otherwise they stay as they are. If there were 32 at most,
-- there are 32 at most afterwards.
pub handle_packet_postpones :
    (p : Platform) (c : Connection) (buf : List ℕ)
    → 1 ≤ length buf
    → c.enable_crypt ≡ true
    → c.gkcrypt_remote ≡ none
    → (base_type buf ≡ packet_type_video) ⊎ (base_type buf ≡ packet_type_audio)
    → length (postponed c.postponed_packets) ≤ postpone_packets_size
    → (packets : Option (List (List ℕ))) × (handle_packet p c buf
        ≡ some (record c { postponed_packets = packets }, []))
      × ((HasRoom p.malloc_ok c.postponed_packets
            × (packets ≡ some (postponed c.postponed_packets ++ (buf ∷ []))))
          ⊎ (IsFull p.malloc_ok c.postponed_packets × (packets ≡ c.postponed_packets)))
      × (length (postponed packets) ≤ 32)
unfolding handle_checked
handle_packet_postpones p c buf h crypt key kind count = (
  postpone_packet p.malloc_ok c.postponed_packets buf,
  no_key p c buf h key ∙ elim kind [
    | inl e ↦ rw (waits c crypt key, e) refl
    | inr e ↦ rw (waits c crypt key, e) refl
  ],
  postpone_packet_lem p.malloc_ok c.postponed_packets buf count,
  postpone_packet_fits p.malloc_ok c.postponed_packets buf count,
)
