-- ===== src/Registry/Names/Slugs.antt =====
-- What a slug is made of. The loop of `slug` ends, and what it leaves has no two dashes in a row.
use gomyadmin.Base.{
  ℕ, zero, suc, ◌≤◌, ◌<◌, ◌≡◌, ◌≢◌, refl, true, false, ◌&&◌, [], ◌∷◌, arith, Str, ◌==◌, nat_eq,
  str_eq, length, All, Bool-cases, inl, inr,
}
use gomyadmin.Registry.Names.{squeeze, collapse, dashed, slug}
use gomyadmin.Registry.Names.Words.{Plain}
use gomyadmin.Text.Case.{is_upper, to_lower, to_lower-All, contains}
use gomyadmin.Text.Trim.{trim_space-All}
use gomyadmin.Text.{lit, replace_byte, has_prefix}

squeeze-le : (s : Str) → length (squeeze s) ≤ length s
unfolding squeeze
squeeze-le [] = omega arith
squeeze-le (c ∷ []) = omega arith
squeeze-le (c ∷ d ∷ s) = ground (arith, squeeze-le s, squeeze-le (d ∷ s))

-- A round that is made drops a byte.
squeeze_lt : (s : Str) → contains s (lit "--") ≡ true → length (squeeze s) < length s
unfolding squeeze contains has_prefix
squeeze_lt [] h = cc
squeeze_lt (c ∷ []) h = ground arith
squeeze_lt (c ∷ d ∷ s) h = ground (arith, squeeze-le s, squeeze-le (d ∷ s), squeeze_lt (d ∷ s))

collapse_sound :
    (fuel : ℕ) (s : Str) → length s ≤ fuel → contains (collapse fuel s) (lit "--") ≡ false
unfolding collapse
collapse_sound zero [] h = unfold contains has_prefix in refl
collapse_sound zero (c ∷ s) h = absurd (omega arith)
collapse_sound (suc fuel) s h = elim (Bool-cases (contains s (lit "--"))) [
  | inl t ↦ rw (collapse, t) (collapse_sound fuel (squeeze s) (omega (arith, squeeze_lt s t)))
  | inr t ↦ rw (collapse, t) t
]

-- A byte of a slug: no upper case, no underscore, no space.
abbrev pub IsSlugByte : ℕ → Type 0
IsSlugByte c = Plain c × (c ≢ b'_') × (c ≢ b' ')

squeeze-All : (s : Str) → All IsSlugByte s → All IsSlugByte (squeeze s)
unfolding squeeze
squeeze-All [] h = tt
squeeze-All (c ∷ []) h = h
squeeze-All (c ∷ d ∷ s) h =
    let cut = squeeze-All s h.1.1 in
    let kept = squeeze-All (d ∷ s) h.1 in
    elim (Bool-cases (c == b'-' && d == b'-')) [
      | inl t ↦ rw t (((unfold is_upper in refl), (omega arith), (omega arith)), cut)
      | inr t ↦ rw t (h.0, kept)
    ]

collapse-All : (fuel : ℕ) (s : Str) → All IsSlugByte s → All IsSlugByte (collapse fuel s)
unfolding collapse
collapse-All zero s h = h
collapse-All (suc fuel) s h = elim (Bool-cases (contains s (lit "--"))) [
  | inl t ↦ rw (collapse, t) (collapse-All fuel (squeeze s) (squeeze-All s h))
  | inr t ↦ rw (collapse, t) h
]

replace_byte-All :
    (P Q : ℕ → Type 0) (s : Str) (old : ℕ)
    → ((c : ℕ) → P c → c ≢ old → Q c)
    → Q b'-'
    → All P s
    → All Q (replace_byte s old (lit "-"))
unfolding replace_byte
replace_byte-All P Q [] old keeps new h = tt
replace_byte-All P Q (c ∷ s) old keeps new h =
    let later = replace_byte-All P Q s old keeps new h.1 in
    elim (Bool-cases (c == old)) [
      | inl t ↦ rw t (new, later)
      | inr t ↦ rw t (keeps c h.0 (λ e. ground arith), later)
    ]

dashed-All : (value : Str) → All IsSlugByte (dashed value)
unfolding dashed is_upper
dashed-All value =
    let lowered = trim_space-All Plain (to_lower value) (to_lower-All value) in
    replace_byte-All (λ c. Plain c × (c ≢ b'_')) IsSlugByte _ b' ' (λ c p h. (p.0, p.1, h))
      (refl, (omega arith), (omega arith))
      (replace_byte-All Plain (λ c. Plain c × (c ≢ b'_')) _ b'_' (λ c p h. (p, h))
        (refl, (omega arith)) lowered)

-- Whatever the name, its slug has no upper case, no underscore and no space, and no two dashes in a
-- row.
pub slug_lem :
    (value : Str) → All IsSlugByte (slug value) × (contains (slug value) (lit "--") ≡ false)
unfolding slug
slug_lem value = (
  collapse-All (length (dashed value)) (dashed value) (dashed-All value),
  collapse_sound (length (dashed value)) (dashed value) (omega arith),
)
