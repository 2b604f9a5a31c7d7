-- ===== src/GkCrypt/Gmac.antt =====
-- lib/src/gkcrypt.c: the codes of packets, chiaki_gkcrypt_gmac, and the keys made for them, a new one
-- for every 45000 positions. SHA-256 and AES-GCM are parameters.
use vitaki_vitarps.Base.{
  ℕ, zero, suc, ◌-◌, ◌*◌, ◌/◌, ◌%◌, ◌^◌, ◌≡◌, refl, ap, ◌∙◌, Option, none, some, List, [], ◌∷◌,
  ◌++◌, map, ltb, ◌==◌, if◌then◌else◌, arith, take, drop, Bool-cases, inl, inr, Result, ne→==,
  ltb→lt, ltb→ge, ◌<◌,
}
use vitaki_vitarps.GkCrypt.Counter.{counter_add}
use vitaki_vitarps.GkCrypt.Cipher.{xor_bytes}

-- `sha256` gives 32 bytes; `tag` is what the library makes of a key, an iv and the bytes, or fails.
pub record Library : Type 0 where
  pub sha256 : List ℕ → List ℕ
  pub tag : List ℕ → List ℕ → List ℕ → Result (List ℕ)

-- What the codes need of ChiakiGKCrypt.
pub record GmacKeys : Type 0 where
  pub iv : List ℕ
  pub key_gmac_base : List ℕ
  pub key_gmac_current : List ℕ
  pub key_gmac_index_current : ℕ

abbrev pub gmac_key_refresh_key_pos : ℕ
gmac_key_refresh_key_pos = 45000

abbrev pub gmac_key_refresh_iv_offset : ℕ
gmac_key_refresh_iv_offset = 44910

-- A code that is asked for: the position and the bytes.
abbrev pub Request : Type 0
Request = ℕ × List ℕ

abbrev pub key_index_of : ℕ → ℕ
key_index_of key_pos = (if ltb 0 key_pos then key_pos - 1 else 0) / gmac_key_refresh_key_pos

module _ (lib : Library) where
  unfoldable pub gen_gmac_key : ℕ → List ℕ → List ℕ → List ℕ
  gen_gmac_key index key_base iv =
      let input = key_base ++ counter_add iv (index * gmac_key_refresh_iv_offset % 2 ^ 64) in
      let md = lib.sha256 input in xor_bytes (take 16 md) (drop 16 md)

  -- `none` is a failed assertion.
  unfoldable pub gen_new_gmac_key : GmacKeys → ℕ → Option GmacKeys
  gen_new_gmac_key g zero = none
  gen_new_gmac_key g (suc n) = some (record g {
    key_gmac_current = gen_gmac_key (suc n) g.key_gmac_base g.iv;
    key_gmac_index_current = suc n;
  })

  unfoldable pub gen_tmp_gmac_key : GmacKeys → ℕ → List ℕ
  gen_tmp_gmac_key g index =
      if index == 0 then g.key_gmac_base else gen_gmac_key index g.key_gmac_base g.iv

  -- The keys of `chiaki_gkcrypt_init`, once the key and the iv are made.
  unfoldable pub gmac_init : List ℕ → List ℕ → GmacKeys
  gmac_init key_base iv =
      let base = gen_gmac_key 0 key_base iv in
      record { iv = iv; key_gmac_base = base; key_gmac_current = base; key_gmac_index_current = 0 }

  -- The code and the state left; `none` is a failed assertion.
  unfoldable pub gmac : GmacKeys → Request → Option (Result (List ℕ) × GmacKeys)
  unfolding gen_new_gmac_key gen_tmp_gmac_key
  gmac g (key_pos, buf) =
      let iv = counter_add g.iv (key_pos / 16) in
      let key_index = key_index_of key_pos in
      if ltb g.key_gmac_index_current key_index
      then elim (gen_new_gmac_key g key_index) [
        | none ↦ none
        | some g' ↦ some (lib.tag g'.key_gmac_current iv buf, g')
      ]
      else if ltb key_index g.key_gmac_index_current
      then some (lib.tag (gen_tmp_gmac_key g key_index) iv buf, g)
      else some (lib.tag g.key_gmac_current iv buf, g)

  -- Codes asked for one after the other.
  unfoldable pub gmacs : GmacKeys → List Request → Option (List (Result (List ℕ)))
  unfolding gmac
  gmacs g [] = some []
  gmacs g (r ∷ rs) = elim (gmac g r) [
    | none ↦ none
    | some (code, g') ↦ elim (gmacs g' rs) [ none ↦ none | some codes ↦ some (code ∷ codes) ]
  ]

  -- The code of a request by itself: with the key of its position's index, of the base's key and iv.
  abbrev pub gmac_alone : List ℕ → List ℕ → Request → Result (List ℕ)
  gmac_alone base iv (key_pos, buf) =
      let index = key_index_of key_pos in
      lib.tag (if index == 0 then base else gen_gmac_key index base iv)
        (counter_add iv (key_pos / 16)) buf

  record IsCurrent (base iv : List ℕ) (g : GmacKeys) : Type 0 where
    same_base : g.key_gmac_base ≡ base
    same_iv : g.iv ≡ iv
    current : g.key_gmac_current ≡ gen_tmp_gmac_key g g.key_gmac_index_current

  gmac_init-IsCurrent :
      (key_base iv : List ℕ) → IsCurrent (gen_gmac_key 0 key_base iv) iv (gmac_init key_base iv)
  unfolding gmac_init gen_tmp_gmac_key
  gmac_init-IsCurrent key_base iv = record { same_base = refl; same_iv = refl; current = refl }

  new_key_lem :
      (g : GmacKeys) (index : ℕ)
      → 0 < index
      → gen_new_gmac_key g index
        ≡ some (record g {
          key_gmac_current = gen_tmp_gmac_key g index;
          key_gmac_index_current = index;
        })
  unfolding gen_new_gmac_key gen_tmp_gmac_key
  new_key_lem g zero h = absurd (omega (arith, h))
  new_key_lem g (suc n) h = rw (ne→== (suc n) 0 (omega arith)) refl

  -- The state after a request: the key of its index, if that is a later one.
  abbrev after : GmacKeys → ℕ → GmacKeys
  after g index =
      if ltb g.key_gmac_index_current index
      then record g { key_gmac_current = gen_tmp_gmac_key g index; key_gmac_index_current = index }
      else g

  after-IsCurrent :
      (base iv : List ℕ) (g : GmacKeys) (index : ℕ)
      → IsCurrent base iv g
      → IsCurrent base iv (after g index)
  unfolding gen_tmp_gmac_key
  after-IsCurrent base iv g index c = elim (Bool-cases (ltb g.key_gmac_index_current index)) [
    | inl later ↦ rw later (record { same_base = c.same_base; same_iv = c.same_iv; current = refl })
    | inr same ↦ rw same c
  ]

  gmac-after :
      (g : GmacKeys) (key_pos : ℕ) (buf : List ℕ)
      → g.key_gmac_current ≡ gen_tmp_gmac_key g g.key_gmac_index_current
      → gmac g (key_pos, buf)
        ≡ some (
          lib.tag (gen_tmp_gmac_key g (key_index_of key_pos)) (counter_add g.iv (key_pos / 16)) buf,
          after g (key_index_of key_pos),
        )
  unfolding gmac
  gmac-after g key_pos buf c =
      let index : ℕ = key_index_of key_pos in
      elim (Bool-cases (ltb g.key_gmac_index_current index)) [
        | inl later ↦
            rw
              (
                later,
                new_key_lem g index (omega (arith, ltb→lt g.key_gmac_index_current index later)),
              )
              refl
        | inr not_later ↦ elim (Bool-cases (ltb index g.key_gmac_index_current)) [
          | inl earlier ↦ rw (not_later, earlier) refl
          | inr not_earlier ↦
              let same : g.key_gmac_index_current ≡ index = omega (
                arith,
                ltb→ge g.key_gmac_index_current index not_later,
                ltb→ge index g.key_gmac_index_current not_earlier,
              ) in
              rw (not_later, not_earlier)
                (ap (λ key. some (lib.tag key (counter_add g.iv (key_pos / 16)) buf, g))
                  (c ∙ ap (gen_tmp_gmac_key g) same))
        ]
      ]

  gmacs-cons :
      (g g' : GmacKeys) (r : Request) (rs : List Request) (code : Result (List ℕ))
      (codes : List (Result (List ℕ)))
      → gmac g r ≡ some (code, g')
      → gmacs g' rs ≡ some codes
      → gmacs g (r ∷ rs) ≡ some (code ∷ codes)
  unfolding gmacs
  gmacs-cons g g' r rs code codes h k = ground (arith, h, k)

  tag_alone :
      (base iv : List ℕ) (g : GmacKeys) (key_pos : ℕ) (buf : List ℕ)
      → IsCurrent base iv g
      → lib.tag (gen_tmp_gmac_key g (key_index_of key_pos)) (counter_add g.iv (key_pos / 16)) buf
        ≡ gmac_alone base iv (key_pos, buf)
  unfolding gen_tmp_gmac_key
  tag_alone base iv g key_pos buf c = rw (c.same_base, c.same_iv) refl

  gmacs-alone :
      (base iv : List ℕ) (g : GmacKeys) (rs : List Request)
      → IsCurrent base iv g
      → gmacs g rs ≡ some (map (gmac_alone base iv) rs)
  unfolding gmacs
  gmacs-alone base iv g [] c = refl
  gmacs-alone base iv g ((key_pos, buf) ∷ rs) c =
      let g' : GmacKeys = after g (key_index_of key_pos) in
      gmacs-cons g g' (key_pos, buf) rs (gmac_alone base iv (key_pos, buf))
        (map (gmac_alone base iv) rs)
        (gmac-after g key_pos buf c.current
          ∙ ap (λ code. some (code, g')) (tag_alone base iv g key_pos buf c))
        (gmacs-alone base iv g' rs (after-IsCurrent base iv g (key_index_of key_pos) c))

-- Whatever codes are asked for from a new state, at whatever positions and in whatever order, no
-- assertion fails, and each code is what it would be if it were asked for alone: its key is that of
-- the position's own index, though only the latest key is kept.
pub gmacs-gmac_alone :
    (lib : Library) (key_base iv : List ℕ) (rs : List Request)
    → gmacs lib (gmac_init lib key_base iv) rs
      ≡ some (map (gmac_alone lib (gen_gmac_key lib 0 key_base iv) iv) rs)
gmacs-gmac_alone lib key_base iv rs =
    gmacs-alone lib (gen_gmac_key lib 0 key_base iv) iv (gmac_init lib key_base iv) rs
      (gmac_init-IsCurrent lib key_base iv)
