-- ===== src/Access/Grants.antt =====
-- Which permission a granted pattern gives (pkg/admin/context.go), and that the copy of the matcher
-- in pkg/rbac/rbac.go agrees with it.
use gomyadmin.Base.{
  ◌-◌, ◌<◌, ◌≡◌, refl, sym, ap, ◌∙◌, ◌↔◌, ◌≢◌, inl, inr, Bool, true, false, ◌&&◌, List, [], ◌∷◌,
  ◌++◌, append_assoc, arith, Str, str_beq_iff, str_beq_refl, ◌==◌, nat_eq, str_eq, length, take,
  drop, In, str_beq, length-append, take-append, take-append-drop, Bool-cases, ltb, leb,
}
use mathlib.Core.Bool.{false≢true}
use gomyadmin.Text.{lit, has_prefix, has_suffix}
use gomyadmin.Text.Laws.{
  has_prefix_sound, has_prefix-append, has_suffix_sound, has_suffix-append, eq-append-drop,
  drop_at-append,
}
use gomyadmin.Access.{Actor, match_permission, admin_match_permission, can_any, can}

-- A pattern that ends in ".*" and has something before it.
abbrev pub IsBelow : Str → Type 0
IsBelow g = (p : Str) × (p ≢ []) × (g ≡ p ++ lit ".*")

-- The meaning of a pattern: itself, "*" for everything, "p.*" for all that begins with "p.", and
-- "*.s", unless it is of the form before, for all that ends in ".s".
pub data Grants (g r : Str) : Type 0 where
  exact : g ≡ r → Grants g r
  every : g ≡ lit "*" → Grants g r
  below : (p rest : Str) → p ≢ [] → g ≡ p ++ lit ".*" → r ≡ (p ++ lit ".") ++ rest → Grants g r
  across :
      (s front : Str) → ¬ IsBelow g → g ≡ lit "*." ++ s → r ≡ front ++ (lit "." ++ s) → Grants g r

abbrev tests_below : Str → Bool
tests_below g = ltb 2 (length g) && drop (length g - 2) g == lit ".*"

tested-IsBelow : (g : Str) → tests_below g ≡ true → IsBelow g
tested-IsBelow g h =
    let e : drop (length g - 2) g ≡ lit ".*" =
      ground (arith, str_beq_iff (drop (length g - 2) g) (lit ".*")) in
    let whole : g ≡ take (length g - 2) g ++ lit ".*" =
      eq-append-drop (length g - 2) g (lit ".*") e in
    (
      take (length g - 2) g,
      (λ z.
          let short : length g ≡ 2 = ap length (whole ∙ ap (λ (t : Str). t ++ lit ".*") z) in
          ground arith),
      whole,
    )

length_pos : (p : Str) → p ≢ [] → 0 < length p
length_pos [] h = absurd (h refl)
length_pos (c ∷ p) h = omega arith

test_below : (p : Str) → p ≢ [] → tests_below (p ++ lit ".*") ≡ true
test_below p h =
    rw (drop_at-append p (lit ".*"))
      (ground (arith, str_beq_refl (lit ".*"), length-append p (lit ".*"), length_pos p h))

-- The part of "p.*" that the matcher compares is "p.".
cut_length : (p : Str) → length (p ++ lit ".*") - 1 ≡ length (p ++ lit ".")
cut_length p = omega (arith, length-append {0} p (lit ".*"), length-append {0} p (lit "."))

cut_take : (p : Str) → take (length (p ++ lit ".")) (p ++ lit ".*") ≡ p ++ lit "."
cut_take p =
    ap (λ t. take (length (p ++ lit ".")) t) (sym (append_assoc p (lit ".") (lit "*")))
    ∙ take-append (p ++ lit ".") (lit "*")

abbrev fits_below : Str → Str → Bool
fits_below g r = leb (length g - 1) (length r) && take (length g - 1) r == take (length g - 1) g

below_cut :
    (p r : Str) → fits_below (p ++ lit ".*") r ≡ true → (rest : Str) × (r ≡ (p ++ lit ".") ++ rest)
below_cut p r h =
    let n = length (p ++ lit ".*") - 1 in
    let same : take n r ≡ take n (p ++ lit ".*") =
      ground (arith, str_beq_iff (take n r) (take n (p ++ lit ".*"))) in
    let head : take n r ≡ p ++ lit "." =
      same ∙ ap (λ k. take k (p ++ lit ".*")) (cut_length p) ∙ cut_take p in
    (drop n r, sym (take-append-drop n r) ∙ ap (λ (t : Str). t ++ drop n r) head)

below_fits : (p rest : Str) → fits_below (p ++ lit ".*") ((p ++ lit ".") ++ rest) ≡ true
below_fits p rest = rw (cut_length p) (
    rw (cut_take p, take-append (p ++ lit ".") rest)
      (ground (arith, str_beq_refl (p ++ lit "."), length-append (p ++ lit ".") rest)))

abbrev fits_across : Str → Str → Bool
fits_across g r = leb (length (drop 1 g)) (length r) && has_suffix r (drop 1 g)

across_cut :
    (s r : Str)
    → fits_across (lit "*." ++ s) r ≡ true
    → (front : Str) × (r ≡ front ++ (lit "." ++ s))
across_cut s r h = has_suffix_sound r (lit "." ++ s) (ground arith)

across_fits : (s front : Str) → fits_across (lit "*." ++ s) (front ++ (lit "." ++ s)) ≡ true
across_fits s front =
    ground (arith, has_suffix-append front (lit "." ++ s), length-append front (lit "." ++ s))

match_sound_below : (g r : Str) → tests_below g ≡ true → fits_below g r ≡ true → Grants g r
match_sound_below g r t f =
    let (p, ne, e) = tested-IsBelow g t in
    let (rest, e') = below_cut p r (rw e at f) in below p rest ne e e'

match_sound_across :
    (g r : Str)
    → tests_below g ≡ false
    → has_prefix g (lit "*.") ≡ true
    → fits_across g r ≡ true
    → Grants g r
match_sound_across g r t h f =
    let (s, e) = has_prefix_sound g (lit "*.") h in
    let (front, e') = across_cut s r (rw e at f) in
    across s front (λ b. let (p, ne, eq) = b in cc (test_below p ne)) e e'

match_sound : (g r : Str) → match_permission g r ≡ true → Grants g r
unfolding match_permission
match_sound g r h = elim (Bool-cases (g == r)) [
  | inl same ↦ exact ((str_beq_iff g r).0 same)
  | inr differ ↦ elim (Bool-cases (g == lit "*")) [
    | inl star ↦ every ((str_beq_iff g (lit "*")).0 star)
    | inr other ↦ elim (Bool-cases (tests_below g)) [
      | inl t ↦ match_sound_below g r t (rw (differ, other, t) at h)
      | inr t ↦
          let tail = rw (differ, other, t) at h in
          elim (Bool-cases (has_prefix g (lit "*."))) [
            | inl front ↦ match_sound_across g r t front (rw front at tail)
            | inr none ↦ absurd (false≢true (rw none at tail))
          ]
    ]
  ]
]

not_below : (g : Str) → ¬ IsBelow g → tests_below g ≡ false
not_below g h = elim (Bool-cases (tests_below g)) [
  | inl t ↦ absurd (h (tested-IsBelow g t))
  | inr t ↦ t
]

match_complete : (g r : Str) → Grants g r → match_permission g r ≡ true
unfolding match_permission
match_complete g r (exact e) = ground (arith, str_beq_iff g r)
match_complete g r (every e) = ground (arith, str_beq_iff g (lit "*"))
match_complete g r (below p rest ne e e') =
    let t : tests_below g ≡ true = rw e (test_below p ne) in
    let f : fits_below g r ≡ true = rw (e, e') (below_fits p rest) in ground arith
match_complete g r (across s front nb e e') =
    let t : tests_below g ≡ false = not_below g nb in
    let h : has_prefix g (lit "*.") ≡ true = rw e (has_prefix-append (lit "*.") s) in
    let f : fits_across g r ≡ true = rw (e, e') (across_fits s front) in ground arith

-- A granted pattern permits a request exactly when the pattern is the request, is "*", is "p.*"
-- for a nonempty p with the request beginning with "p.", or is "*.s", not of the form "p.*", with
-- the request ending in ".s".
pub match_permission_iff : (g r : Str) → (match_permission g r ≡ true) ↔ Grants g r
match_permission_iff g r = (match_sound g r, match_complete g r)

-- Only "*" permits "*".
pub Grants-star : (g : Str) → Grants g (lit "*") → g ≡ lit "*"
Grants-star g (exact e) = e
Grants-star g (every e) = e
Grants-star g (below p rest ne e e') = absurd (
    omega (
      arith,
      ap length e',
      length_pos p ne,
      length-append {0} (p ++ lit ".") rest,
      length-append {0} p (lit "."),
    ))
Grants-star g (across s [] nb e e') = cc
Grants-star g (across s (c ∷ front) nb e e') =
    absurd (omega (arith, ap length e', length-append {0} front (lit "." ++ s)))

can_any_sound : (l : List Str) (r : Str) → can_any l r ≡ true → (g : Str) × In g l × Grants g r
unfolding can_any
can_any_sound [] r h = cc
can_any_sound (g ∷ l) r h = elim (Bool-cases (match_permission g r)) [
  | inl yes_g ↦ (g, inl refl, match_sound g r yes_g)
  | inr no_g ↦ elim (Bool-cases (g == lit "*")) [
    | inl star ↦ (g, inl refl, every ((str_beq_iff g (lit "*")).0 star))
    | inr other ↦ let (g', m, gr) = can_any_sound l r (rw (other, no_g) at h) in (g', inr m, gr)
  ]
]

can_any_complete : (l : List Str) (g r : Str) → In g l → Grants g r → can_any l r ≡ true
unfolding can_any
can_any_complete [] g r m gr = absurd m
can_any_complete (g' ∷ l) g r (inl e) gr =
    let yes_g : match_permission g' r ≡ true = rw (← e) (match_complete g r gr) in ground arith
can_any_complete (g' ∷ l) g r (inr m) gr = ground (arith, can_any_complete l g r m gr)

-- An actor may do exactly what one of its permissions grants.
pub can_iff :
    (a : Actor) (r : Str) → (can a r ≡ true) ↔ ((g : Str) × In g a.permissions × Grants g r)
unfolding can
can_iff a r = (can_any_sound a.permissions r, λ w. can_any_complete a.permissions w.0 r w.1 w.2)

prefix_cut :
    (g : Str) → g ≢ lit "*." → (ltb 2 (length g) && take 2 g == lit "*.") ≡ has_prefix g (lit "*.")
unfolding has_prefix str_beq
prefix_cut [] h = refl
prefix_cut (a ∷ []) h = ground arith
prefix_cut (a ∷ b ∷ []) h = ground arith
prefix_cut (a ∷ b ∷ c ∷ g) h = ground arith

-- The matcher of package rbac gives the same answer as the one of package admin for every pattern
-- but "*.".
pub admin_match_permission-eq :
    (g r : Str) → g ≢ lit "*." → admin_match_permission g r ≡ match_permission g r
unfolding admin_match_permission match_permission has_suffix
admin_match_permission-eq g r h = rw (prefix_cut g h) (ground arith)
