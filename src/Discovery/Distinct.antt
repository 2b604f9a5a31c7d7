-- ===== src/Discovery/Distinct.antt =====
-- No two hosts are known under the same id.
use vitaki_vitarps.Base.{
  Option, sym, get_or, if◌then◌else◌, ℕ, zero, suc, ◌≡◌, ◌≢◌, inl, inr, refl, ap, subst, ◌∙◌, Bool,
  true, false, none, some, List, [], ◌∷◌, ◌++◌, arith, set, keep_if, Bool-cases, Option-cases,
}
use vitaki_vitarps.Discovery.Hosts.{strdup, no_entry, Entry, has_id, find_host}
use vitaki_vitarps.Discovery.Known.{known_host, has_id-true, has_id-eq, find_host-IsFirst}

-- No entry is known under an id, if there is one.
abbrev pub IsApart : Option (List ℕ) → List Entry → Type 0
IsApart none es = Unit
IsApart (some id) es = known_host es id ≡ none

-- No two hosts have the same id; a host may have none, when `strdup` failed.
abbrev pub IsDistinct : List Entry → Type 0
IsDistinct [] = Unit
IsDistinct (e ∷ es) = IsApart e.host.host_id es × IsDistinct es

known_host-keep_if :
    (p : Entry → Bool) (es : List Entry) (id : List ℕ)
    → known_host es id ≡ none
    → known_host (keep_if p es) id ≡ none
unfolding keep_if
known_host-keep_if p [] id h = refl
known_host-keep_if p (e ∷ es) id h = elim (Bool-cases (has_id id e.host)) [
  | inl same ↦ absurd (ground (arith, h, same))
  | inr differs ↦
      let rest = known_host-keep_if p es id (ground (arith, h, differs)) in
      elim (Bool-cases (p e)) [ inl kept ↦ rw kept (rw differs rest) | inr gone ↦ rw gone rest ]
]

IsApart-keep_if :
    (p : Entry → Bool) (o : Option (List ℕ)) (es : List Entry)
    → IsApart o es
    → IsApart o (keep_if p es)
IsApart-keep_if p none es h = tt
IsApart-keep_if p (some id) es h = known_host-keep_if p es id h

pub keep_if-IsDistinct :
    (p : Entry → Bool) (es : List Entry) → IsDistinct es → IsDistinct (keep_if p es)
unfolding keep_if
keep_if-IsDistinct p [] d = tt
keep_if-IsDistinct p (e ∷ es) (apart, d) = elim (Bool-cases (p e)) [
  | inl kept ↦ rw kept (IsApart-keep_if p e.host.host_id es apart, keep_if-IsDistinct p es d)
  | inr gone ↦ rw gone (keep_if-IsDistinct p es d)
]

known_host-append_missing :
    (es : List Entry) (x : Entry) (id : List ℕ)
    → has_id id x.host ≡ false
    → known_host (es ++ (x ∷ [])) id ≡ known_host es id
known_host-append_missing [] x id h = rw h refl
known_host-append_missing (e ∷ es) x id h =
    ap (λ o. if has_id id e.host then some e.host else o) (known_host-append_missing es x id h)

-- An entry under whose id none of some is known is known under none of their ids.
apart-missing :
    (e x : Entry) (es : List Entry) (id : List ℕ)
    → e.host.host_id ≡ some id
    → IsApart x.host.host_id (e ∷ es)
    → has_id id x.host ≡ false
apart-missing e x es id is_id apart = elim (Bool-cases (has_id id x.host)) [
  | inr differs ↦ differs
  | inl same ↦
      let unknown : known_host (e ∷ es) id ≡ none =
        subst (λ o. IsApart o (e ∷ es)) (has_id-eq id x.host same) apart in
      absurd (ground (arith, unknown, has_id-true id e.host is_id))
]

tail-IsApart :
    (o : Option (List ℕ)) (e : Entry) (es : List Entry) → IsApart o (e ∷ es) → IsApart o es
tail-IsApart none e es h = tt
tail-IsApart (some id) e es h = elim (Bool-cases (has_id id e.host)) [
  | inl same ↦ absurd (ground (arith, h, same))
  | inr differs ↦ ground (arith, h, differs)
]

IsApart-append :
    (e x : Entry) (es : List Entry)
    → IsApart e.host.host_id es
    → IsApart x.host.host_id (e ∷ es)
    → IsApart e.host.host_id (es ++ (x ∷ []))
IsApart-append e x es alone apart = elim (Option-cases e.host.host_id) [
  | inl no_id ↦ subst (λ o. IsApart o (es ++ (x ∷ []))) (sym no_id) tt
  | inr (id, is_id) ↦
      subst (λ o. IsApart o (es ++ (x ∷ []))) (sym is_id)
        (known_host-append_missing es x id (apart-missing e x es id is_id apart)
          ∙ subst (λ o. IsApart o es) is_id alone)
]

pub append-IsDistinct :
    (es : List Entry) (x : Entry)
    → IsApart x.host.host_id es
    → IsDistinct es
    → IsDistinct (es ++ (x ∷ []))
append-IsDistinct [] x apart d = (apart, tt)
append-IsDistinct (e ∷ es) x apart (alone, d) = (
  IsApart-append e x es alone apart,
  append-IsDistinct es x (tail-IsApart x.host.host_id e es apart) d,
)

found_behind :
    (e : Entry) (es : List Entry) (id : List ℕ)
    → has_id id e.host ≡ false
    → find_host (e ∷ es) id ≢ some 0
unfolding find_host
found_behind e es id h k = ground (arith, h, k)

found_here :
    (e : Entry) (es : List Entry) (id : List ℕ) (i : ℕ)
    → has_id id e.host ≡ true
    → find_host (e ∷ es) id ≢ some (suc i)
unfolding find_host
found_here e es id i h k = ground (arith, h, k)

found_next :
    (e : Entry) (es : List Entry) (id : List ℕ) (i : ℕ)
    → has_id id e.host ≡ false
    → find_host (e ∷ es) id ≡ some (suc i)
    → find_host es id ≡ some i
unfolding find_host
found_next e es id i h k = ground (arith, h, k)

-- The entry found under an id is replaced by one with the same id.
IsApart-set :
    (o : Option (List ℕ)) (es : List Entry) (x : Entry) (id : List ℕ) (i : ℕ)
    → x.host.host_id ≡ some id
    → find_host es id ≡ some i
    → o ≢ some id
    → IsApart o es
    → IsApart o (set es i x)
IsApart-set none es x id i is_id found differ h = tt
IsApart-set (some other) es x id i is_id found differ h = elim (find_host-IsFirst es id) [
  | inl (missing, _) ↦ absurd (ground (arith, found, missing))
  | inr (j, at_j, f) ↦
      let same_place : j ≡ i = ground (arith, found, at_j) in
      subst (λ k. known_host (set es k x) other ≡ none) same_place
        (f.others x other is_id (λ k. differ (ap some k)) ∙ h)
]

pub set-IsDistinct :
    (es : List Entry) (x : Entry) (id : List ℕ) (i : ℕ)
    → x.host.host_id ≡ some id
    → find_host es id ≡ some i
    → IsDistinct es
    → IsDistinct (set es i x)
unfolding find_host
set-IsDistinct [] x id i is_id found d = tt
set-IsDistinct (e ∷ es) x id zero is_id found (alone, d) = elim (Bool-cases (has_id id e.host)) [
  | inl same ↦ (subst (λ o. IsApart o es) (has_id-eq id e.host same ∙ sym is_id) alone, d)
  | inr differs ↦ absurd (found_behind e es id differs found)
]
set-IsDistinct (e ∷ es) x id (suc i) is_id found (alone, d) = elim (Bool-cases (has_id id e.host)) [
  | inl same ↦ absurd (found_here e es id i same found)
  | inr differs ↦
      let next : find_host es id ≡ some i = found_next e es id i differs found in
      (
        IsApart-set e.host.host_id es x id i is_id next
            (λ k. absurd (ground (arith, differs, has_id-true id e.host k))) alone,
        set-IsDistinct es x id i is_id next d,
      )
]

pub new-IsApart :
    (strdup_ok : Bool) (es : List Entry) (id : List ℕ)
    → known_host es id ≡ none
    → IsApart (strdup strdup_ok id) es
new-IsApart true es id h = h
new-IsApart false es id h = tt

-- The id found is that of the first host with it.
pub found_id :
    (es : List Entry) (id : List ℕ) (i : ℕ)
    → find_host es id ≡ some i
    → (get_or es i no_entry).host.host_id ≡ some id
unfolding find_host
found_id [] id i h = absurd (ground (arith, h))
found_id (e ∷ es) id zero h = elim (Bool-cases (has_id id e.host)) [
  | inl same ↦ has_id-eq id e.host same
  | inr differs ↦ absurd (found_behind e es id differs h)
]
found_id (e ∷ es) id (suc i) h = elim (Bool-cases (has_id id e.host)) [
  | inl same ↦ absurd (found_here e es id i same h)
  | inr differs ↦ found_id es id i (found_next e es id i differs h)
]
