-- ===== src/Discovery/Known.antt =====
-- The host that is known under an id, and where it stands.
use vitaki_vitarps.Base.{
  ℕ, suc, ◌<◌, ◌≡◌, ◌≢◌, ◌⊎◌, inl, inr, refl, ap, ◌∙◌, true, false, Option, none, some, List, [],
  ◌∷◌, ◌++◌, arith, length, get_or, set, Bool-cases, Option-cases, if◌then◌else◌,
}
use vitaki_vitarps.Takion.PacketLaws.{same_bytes_refl, same_bytes→eq}
use vitaki_vitarps.Discovery.Hosts.{Host, Entry, no_entry, has_id, find_host}

-- The host that is known under an id.
abbrev pub known_host : List Entry → List ℕ → Option Host
known_host [] id = none
known_host (e ∷ es) id = if has_id id e.host then some e.host else known_host es id

pub has_id-true : (id : List ℕ) (host : Host) → host.host_id ≡ some id → has_id id host ≡ true
has_id-true id host e = rw e (same_bytes_refl id)

pub has_id-eq : (id : List ℕ) (host : Host) → has_id id host ≡ true → host.host_id ≡ some id
has_id-eq id host h = elim (Option-cases host.host_id) [
  | inl e ↦ absurd (ground (arith, h, e))
  | inr (other, e) ↦ e ∙ ap some (same_bytes→eq other id (ground (arith, h, e)))
]

pub has_id-other :
    (id other : List ℕ) (host : Host)
    → host.host_id ≡ some id
    → other ≢ id
    → has_id other host ≡ false
has_id-other id other host e differ = elim (Bool-cases (has_id other host)) [
  | inr no_match ↦ no_match
  | inl same ↦ absurd (differ (let f = has_id-eq other host same in cc))
]

-- The entry `i` is the first with an id.
pub record IsFirst (es : List Entry) (id : List ℕ) (i : ℕ) : Type 0 where
  pub inside : i < length es
  pub known : known_host es id ≡ some (get_or es i no_entry).host
  pub replaced : (x : Entry) → x.host.host_id ≡ some id → known_host (set es i x) id ≡ some x.host
  pub others :
      (x : Entry) (other : List ℕ)
      → x.host.host_id ≡ some id
      → other ≢ id
      → known_host (set es i x) other ≡ known_host es other

here : (e : Entry) (es : List Entry) (id : List ℕ) → has_id id e.host ≡ true → IsFirst (e ∷ es) id 0
here e es id h = record {
  inside = omega arith;
  known = rw h refl;
  replaced = λ x k. rw (has_id-true id x.host k) refl;
  others = λ x other k differ.
      rw
        (
          has_id-other id other x.host k differ,
          has_id-other id other e.host (has_id-eq id e.host h) differ,
        )
        refl;
}

behind :
    (e : Entry) (es : List Entry) (id : List ℕ) (i : ℕ)
    → has_id id e.host ≡ false
    → IsFirst es id i
    → IsFirst (e ∷ es) id (suc i)
behind e es id i h f = record {
  inside = omega (arith, f.inside);
  known = rw h f.known;
  replaced = λ x k. rw h (f.replaced x k);
  others = λ x other k differ.
      ap (λ o. if has_id other e.host then some e.host else o) (f.others x other k differ);
}

pub find_host-IsFirst :
    (es : List Entry) (id : List ℕ)
    → ((find_host es id ≡ none) × (known_host es id ≡ none))
      ⊎ ((i : ℕ) × (find_host es id ≡ some i) × IsFirst es id i)
unfolding find_host
find_host-IsFirst [] id = inl (refl, refl)
find_host-IsFirst (e ∷ es) id = elim (Bool-cases (has_id id e.host)) [
  | inl h ↦ inr (0, rw h refl, here e es id h)
  | inr h ↦ elim (find_host-IsFirst es id) [
    | inl (missing, unknown) ↦ inl (rw (h, missing) refl, rw h unknown)
    | inr (i, found, f) ↦ inr (suc i, rw (h, found) (ap some (omega arith)), behind e es id i h f)
  ]
]

-- A new entry at the end.
pub set-append_new :
    (es : List Entry) (x y : Entry) → set (es ++ (y ∷ [])) (length es) x ≡ es ++ (x ∷ [])
set-append_new [] x y = refl
set-append_new (e ∷ es) x y = ap (◌∷◌ e) (set-append_new es x y)

pub known_host-append :
    (es : List Entry) (x : Entry) (id : List ℕ)
    → known_host es id ≡ none
    → x.host.host_id ≡ some id
    → known_host (es ++ (x ∷ [])) id ≡ some x.host
known_host-append [] x id h k = rw (has_id-true id x.host k) refl
known_host-append (e ∷ es) x id h k = elim (Bool-cases (has_id id e.host)) [
  | inl same ↦ absurd (ground (arith, h, same))
  | inr differs ↦ rw differs (known_host-append es x id (ground (arith, h, differs)) k)
]

pub known_host-append_other :
    (es : List Entry) (x : Entry) (id other : List ℕ)
    → x.host.host_id ≡ some id
    → other ≢ id
    → known_host (es ++ (x ∷ [])) other ≡ known_host es other
known_host-append_other [] x id other k differ = rw (has_id-other id other x.host k differ) refl
known_host-append_other (e ∷ es) x id other k differ =
    ap (λ o. if has_id other e.host then some e.host else o)
      (known_host-append_other es x id other k differ)
