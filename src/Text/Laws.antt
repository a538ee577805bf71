-- ===== src/Text/Laws.antt =====
-- Laws of the string operations: what a prefix, a suffix and a cut say about the whole string.
use gomyadmin.Base.{
  ℕ, ◌-◌, ◌≡◌, refl, sym, ap, ◌∙◌, ◌≢◌, true, [], ◌∷◌, ◌++◌, arith, Str, str_beq_iff, length, take,
  drop, length-append, take-append, drop-append, take-append-drop, append_assoc, nat_eq, str_eq,
  Bool-cases, inl, inr, append-nil, All, ◌==◌,
}
use gomyadmin.Text.{
  has_prefix, has_suffix, trim_prefix, trim_suffix, split_pair, split_pair_from, split_byte,
  split_byte_from,
}

pub has_prefix_sound : (s p : Str) → has_prefix s p ≡ true → (r : Str) × (s ≡ p ++ r)
unfolding has_prefix
has_prefix_sound s [] h = (s, refl)
has_prefix_sound [] (c ∷ p) h = cc
has_prefix_sound (d ∷ s) (c ∷ p) h =
    let (r, e) = has_prefix_sound s p (ground arith) in (r, ground (arith, e))

pub has_prefix-append : (p r : Str) → has_prefix (p ++ r) p ≡ true
unfolding has_prefix
has_prefix-append [] r = refl
has_prefix-append (c ∷ p) r = ground (arith, has_prefix-append p r)

pub trim_prefix-append : (p r : Str) → trim_prefix (p ++ r) p ≡ r
unfolding trim_prefix
trim_prefix-append p r = rw has_prefix-append (drop-append p r)

-- A string that is cut at a place and read again from there.
pub eq-append-drop : (n : ℕ) (s t : Str) → drop n s ≡ t → s ≡ take n s ++ t
eq-append-drop n s t e = rw (← e) (sym (take-append-drop n s))

pub drop_at-append : (r p : Str) → drop (length (r ++ p) - length p) (r ++ p) ≡ p
drop_at-append r p =
    let e : length (r ++ p) - length p ≡ length r = omega (arith, length-append {0} r p) in
    rw e (drop-append r p)

pub take_at-append : (r p : Str) → take (length (r ++ p) - length p) (r ++ p) ≡ r
take_at-append r p =
    let e : length (r ++ p) - length p ≡ length r = omega (arith, length-append {0} r p) in
    rw e (take-append r p)

pub has_suffix_sound : (s p : Str) → has_suffix s p ≡ true → (r : Str) × (s ≡ r ++ p)
unfolding has_suffix
has_suffix_sound s p h =
    let e : drop (length s - length p) s ≡ p =
      ground (arith, str_beq_iff (drop (length s - length p) s) p) in
    (take (length s - length p) s, eq-append-drop _ s p e)

pub has_suffix-append : (r p : Str) → has_suffix (r ++ p) p ≡ true
unfolding has_suffix
has_suffix-append r p = rw drop_at-append (ground (arith, length-append r p, str_beq_iff p p))

pub trim_suffix-append : (r p : Str) → trim_suffix (r ++ p) p ≡ r
unfolding trim_suffix
trim_suffix-append r p = rw has_suffix-append (take_at-append r p)

-- The byte does not occur in the string.
abbrev pub Lacks : ℕ → Str → Type 0
Lacks c [] = Unit
Lacks c (d ∷ s) = (d ≢ c) × Lacks c s

last-Lacks : (c : ℕ) (s t : Str) → Lacks c s → s ≢ t ++ c ∷ []
last-Lacks c [] [] h e = cc
last-Lacks c [] (d ∷ t) h e = cc
last-Lacks c (a ∷ s) [] h e = ground arith
last-Lacks c (a ∷ s) (d ∷ t) h e = last-Lacks c s t h.1 (ground arith)

-- A string without the byte does not end in it.
pub trim_suffix-Lacks : (c : ℕ) (s : Str) → Lacks c s → trim_suffix s (c ∷ []) ≡ s
unfolding trim_suffix
trim_suffix-Lacks c s h = elim (Bool-cases (has_suffix s (c ∷ []))) [
  | inl ends ↦ let (t, e) = has_suffix_sound s (c ∷ []) ends in absurd (last-Lacks c s t h e)
  | inr plain ↦ rw plain
]

split_pair_step :
    (cur : Str) (c d a : ℕ) (t : Str)
    → a ≢ c
    → split_pair_from cur c d (a ∷ t) ≡ split_pair_from (cur ++ a ∷ []) c d t
unfolding split_pair_from
split_pair_step cur c d a [] h = refl
split_pair_step cur c d a (y ∷ t) h = ground arith

-- Splitting at the pair `c d` passes over what lacks `c`.
split_pair_skip :
    (cur : Str) (c d : ℕ) (s rest : Str)
    → Lacks c s
    → split_pair_from cur c d (s ++ rest) ≡ split_pair_from (cur ++ s) c d rest
split_pair_skip cur c d [] rest h = rw append-nil
split_pair_skip cur c d (a ∷ s) rest h =
    split_pair_step cur c d a (s ++ rest) h.0
    ∙ split_pair_skip (cur ++ a ∷ []) c d s rest h.1
    ∙ ap (λ z. split_pair_from z c d rest) (append_assoc cur (a ∷ []) s)

-- One part, closed by `c`.
pub split_pair-one :
    (c d : ℕ) (s : Str) → Lacks c s → split_pair (s ++ c ∷ []) c d ≡ (s ++ c ∷ []) ∷ []
unfolding split_pair split_pair_from
split_pair-one c d s h = split_pair_skip [] c d s (c ∷ []) h

-- Two parts, the second closed by `c`.
pub split_pair-two :
    (c d : ℕ) (s t : Str)
    → Lacks c s
    → Lacks c t
    → split_pair (s ++ (c ∷ d ∷ t ++ c ∷ [])) c d ≡ s ∷ (t ++ c ∷ []) ∷ []
unfolding split_pair split_pair_from
split_pair-two c d s t h k =
    split_pair_skip [] c d s (c ∷ d ∷ t ++ c ∷ []) h
    ∙ ground (arith, split_pair_skip [] c d t (c ∷ []) k)

split_byte_skip :
    (cur : Str) (c : ℕ) (s rest : Str)
    → Lacks c s
    → split_byte_from cur c (s ++ rest) ≡ split_byte_from (cur ++ s) c rest
unfolding split_byte_from
split_byte_skip cur c [] rest h = rw append-nil
split_byte_skip cur c (a ∷ s) rest h =
    let later =
      split_byte_skip (cur ++ a ∷ []) c s rest h.1
      ∙ ap (λ z. split_byte_from z c rest) (append_assoc cur (a ∷ []) s) in
    ground (arith, later, h.0)

-- A string that lacks the separator is one part, and one that goes on after the separator has it as
-- its first.
pub split_byte-last : (c : ℕ) (s : Str) → Lacks c s → split_byte s c ≡ s ∷ []
unfolding split_byte
split_byte-last c s h =
    ap (λ z. split_byte_from [] c z) (sym (append-nil s))
    ∙ split_byte_skip [] c s [] h
    ∙ unfold split_byte_from in refl

pub split_byte-append :
    (c : ℕ) (s rest : Str) → Lacks c s → split_byte (s ++ c ∷ rest) c ≡ s ∷ split_byte rest c
unfolding split_byte split_byte_from
split_byte-append c s rest h = split_byte_skip [] c s (c ∷ rest) h ∙ ground arith

split_byte_from-glue :
    (cur : Str) (c : ℕ) (s t : Str)
    → split_byte_from cur c (s ++ c ∷ t) ≡ split_byte_from cur c s ++ split_byte_from [] c t
unfolding split_byte_from
split_byte_from-glue cur c [] t = ground arith
split_byte_from-glue cur c (d ∷ s) t =
    let closed = split_byte_from-glue [] c s t in
    let longer = split_byte_from-glue (cur ++ d ∷ []) c s t in ground (arith, closed, longer)

-- The parts around a separator.
pub split_byte-glue :
    (c : ℕ) (s t : Str) → split_byte (s ++ c ∷ t) c ≡ split_byte s c ++ split_byte t c
unfolding split_byte
split_byte-glue c s t = split_byte_from-glue [] c s t

pub Lacks-append : (c : ℕ) (s t : Str) → Lacks c s → Lacks c t → Lacks c (s ++ t)
Lacks-append c [] t h k = k
Lacks-append c (d ∷ s) t h k = (h.0, Lacks-append c s t h.1 k)

split_byte_from-Lacks :
    (cur : Str) (c : ℕ) (s : Str) → Lacks c cur → All (Lacks c) (split_byte_from cur c s)
unfolding split_byte_from
split_byte_from-Lacks cur c [] h = (h, tt)
split_byte_from-Lacks cur c (d ∷ s) h = elim (Bool-cases (d == c)) [
  | inl b ↦ rw b (h, split_byte_from-Lacks [] c s tt)
  | inr b ↦ rw b (
      split_byte_from-Lacks (cur ++ d ∷ []) c s
        (Lacks-append c cur (d ∷ []) h ((λ e. ground arith), tt)))
]

-- No part has the separator.
pub split_byte-Lacks : (c : ℕ) (s : Str) → All (Lacks c) (split_byte s c)
unfolding split_byte
split_byte-Lacks c s = split_byte_from-Lacks [] c s tt
