-- ===== src/Text/Trim.antt =====
-- What `strings.TrimSpace` keeps of a string.
use mathlib.Core.List.{reverse-append}
use gomyadmin.Base.{ℕ, zero, suc, sym, subst, [], ◌∷◌, reverse, Str, drop, length, All, All-append}
use gomyadmin.Text.{trim_while, space_width, space_width_back, trim_space}

module _ {κ} (P : ℕ → Type κ) where
  drop-All : (n : ℕ) (s : Str) → All P s → All P (drop n s)
  drop-All zero s h = h
  drop-All (suc n) [] h = h
  drop-All (suc n) (c ∷ s) h = drop-All n s h.1

  trim_round-All :
      (rest : Str → Str) (s : Str) (w : ℕ)
      → ((t : Str) → All P t → All P (rest t))
      → All P s
      → All P (elim w [ zero ↦ s | suc k ↦ rest (drop (suc k) s) ])
  trim_round-All rest s zero ih h = h
  trim_round-All rest s (suc k) ih h = ih (drop (suc k) s) (drop-All (suc k) s h)

  trim_while-All : (width : Str → ℕ) (n : ℕ) (s : Str) → All P s → All P (trim_while width n s)
  unfolding trim_while
  trim_while-All width zero s h = h
  trim_while-All width (suc n) s h =
      trim_round-All (trim_while width n) s (width s) (trim_while-All width n) h

  reverse-All : (s : Str) → All P s → All P (reverse s)
  reverse-All [] h = h
  reverse-All (c ∷ s) h =
      subst (All P) (sym (reverse-append (c ∷ []) s))
        (All-append P (reverse s) (c ∷ []) (reverse-All s h.1) (h.0, tt))

  -- What holds of every byte holds of those that are left.
  pub trim_space-All : (s : Str) → All P s → All P (trim_space s)
  unfolding trim_space
  trim_space-All s h =
      let front = trim_while space_width (length s) s in
      let kept : All P front = trim_while-All space_width (length s) s h in
      reverse-All (trim_while space_width_back (length front) (reverse front))
        (trim_while-All space_width_back (length front) (reverse front) (reverse-All front kept))
