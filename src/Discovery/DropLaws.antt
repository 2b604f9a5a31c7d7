-- ===== src/Discovery/DropLaws.antt =====
-- Which hosts are dropped.
use mathlib.Core.List.{append_assoc}
use vitaki_vitarps.Base.{
  ℕ, suc, ◌+◌, ◌≤◌, ◌≡◌, refl, sym, ap, ap₂, ◌∙◌, Bool, true, false, not, ◌||◌, List, [], ◌∷◌, ◌++◌,
  arith, length, get_or, keep_if, length-keep_if, length-append, ◌==◌, if◌then◌else◌, Bool-cases,
  inl, inr, get_or-append, take-append, drop-append,
}
use vitaki_vitarps.Discovery.Hosts.{
  Entry, Service, no_entry, report_state, is_fresh, remove_at, drop_from, drop_old_hosts,
}

abbrev pair {ℓ κ} : {A : Type ℓ} {B : Type κ} → A → B → A × B
pair a b = (a, b)

or_false : (b : Bool) → (b || false) ≡ b
or_false b = ground arith

or_true : (b : Bool) → (b || true) ≡ true
or_true b = ground arith

same_suc : (m n : ℕ) → (m == n) ≡ (suc m == suc n)
same_suc m n = ground arith

shorter : (m n : ℕ) → m ≤ n → (m == suc n) ≡ false
shorter m n h = ground arith

drop_from-fresh :
    (n : ℕ) (s : Service) (i : ℕ) (es : List Entry) (change : Bool)
    → is_fresh s (get_or es i no_entry) ≡ true
    → drop_from (suc n) s i es change ≡ drop_from n s (i + 1) es change
unfolding drop_from
drop_from-fresh n s i es change h =
    ap₂ (λ b c. drop_from n s (if b then i + 1 else i) (if b then es else remove_at es i) c) h
      (ap (λ b. change || not b) h ∙ or_false change)

drop_from-stale :
    (n : ℕ) (s : Service) (i : ℕ) (es : List Entry) (change : Bool)
    → is_fresh s (get_or es i no_entry) ≡ false
    → drop_from (suc n) s i es change ≡ drop_from n s i (remove_at es i) true
unfolding drop_from
drop_from-stale n s i es change h =
    ap₂ (λ b c. drop_from n s (if b then i + 1 else i) (if b then es else remove_at es i) c) h
      (ap (λ b. change || not b) h ∙ or_true change)

-- The loop has gone through `kept`, and `es` is left.
drop_from-keep_if :
    (s : Service) (es kept : List Entry) (change : Bool)
    → drop_from (length es) s (length kept) (kept ++ es) change ≡ (
      kept ++ keep_if (is_fresh s) es,
      change || not (length (keep_if (is_fresh s) es) == length es),
    )
unfolding drop_from keep_if
drop_from-keep_if s [] kept change = ap (pair (kept ++ [])) (sym (or_false change))
drop_from-keep_if s (e ∷ es) kept change =
    let first : is_fresh s (get_or (kept ++ e ∷ es) (length kept) no_entry) ≡ is_fresh s e =
      ap (is_fresh s) (get_or-append kept es e no_entry (length kept) refl) in
    elim (Bool-cases (is_fresh s e)) [
      | inl fresh ↦
          drop_from-fresh (length es) s (length kept) (kept ++ e ∷ es) change (first ∙ fresh)
          ∙ ap₂ (λ i xs. drop_from (length es) s i xs change)
              (omega (arith, length-append kept (e ∷ []))) (sym (append_assoc kept (e ∷ []) es))
          ∙ drop_from-keep_if s es (kept ++ e ∷ []) change
          ∙ rw fresh (
              ap₂ pair (append_assoc kept (e ∷ []) (keep_if (is_fresh s) es)) (
                ap (λ b. change || not b)
                  (same_suc (length (keep_if (is_fresh s) es)) (length es))))
      | inr stale ↦
          drop_from-stale (length es) s (length kept) (kept ++ e ∷ es) change (first ∙ stale)
          ∙ ap (λ xs. drop_from (length es) s (length kept) xs true)
              (ap₂ ◌++◌ (take-append kept (e ∷ es) (length kept) refl)
                (drop-append kept (e ∷ es) (length kept + 1) 1 refl))
          ∙ drop_from-keep_if s es kept true
          ∙ rw stale (
              ap (pair (kept ++ keep_if (is_fresh s) es)) (
                sym (
                  ap (λ b. change || not b)
                    (shorter (length (keep_if (is_fresh s) es)) (length es)
                      (length-keep_if (is_fresh s) es))
                  ∙ or_true change)))
    ]

-- The hosts dropped are exactly those that did not answer the last `host_drop_pings` pings, the
-- others stay in their order, and the callback is called, if there is one, exactly when one was
-- dropped, with those that are left. (The sum of the two numbers is taken modulo 2 ^ 64.)
pub drop_old_hosts_lem :
    (s : Service)
    → let (s', reports) = drop_old_hosts s in
      (s' ≡ record s { hosts = keep_if (is_fresh s) s.hosts })
      × (reports ≡ (if length s'.hosts == length s.hosts then [] else report_state s'))
unfolding drop_old_hosts
drop_old_hosts_lem s =
    let e : drop_from (length s.hosts) s 0 s.hosts false ≡ (
      keep_if (is_fresh s) s.hosts,
      not (length (keep_if (is_fresh s) s.hosts) == length s.hosts),
    ) =
      drop_from-keep_if s s.hosts [] false in
    rw (e, drop_old_hosts)
      (refl, ground (arith, Bool-cases (length (keep_if (is_fresh s) s.hosts) == length s.hosts)))
