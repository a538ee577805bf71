-- ===== src/Dict.antt =====
-- Go's `map[string]V` as an association list. The order of the list stands for the unspecified
-- order in which `range` visits a map: a theorem about every list holds for every such order.
pub mod Keys
use gomyadmin.Base.{
  ◌≡◌, refl, Option, none, some, List, [], ◌∷◌, arith, Str, str_beq_iff, ◌==◌, str_eq, nat_eq,
  if◌then◌else◌, All, Bool-cases, inl, inr, subst,
}

abbrev pub Dict {ℓ} : Type ℓ → Type ℓ
Dict V = List (Str × V)

module _ {ℓ} {V : Type ℓ} where
  -- `v, ok := m[k]`
  unfoldable pub lookup : Str → Dict V → Option V
  lookup key [] = none
  lookup key ((name, value) ∷ entries) = if name == key then some value else lookup key entries

  -- `m[k] = v`
  unfoldable pub insert : Str → V → Dict V → Dict V
  insert key new [] = (key, new) ∷ []
  insert key new ((name, value) ∷ entries) =
      if name == key then (key, new) ∷ entries else (name, value) ∷ insert key new entries

  -- `delete(m, k)`
  unfoldable pub delete : Str → Dict V → Dict V
  delete key [] = []
  delete key ((name, value) ∷ entries) =
      let rest = delete key entries in if name == key then rest else (name, value) ∷ rest

  pub lookup-insert :
      (key asked : Str) (new : V) (entries : Dict V)
      → lookup asked (insert key new entries)
        ≡ (if key == asked then some new else lookup asked entries)
  unfolding lookup insert
  lookup-insert key asked new [] = refl
  lookup-insert key asked new ((name, value) ∷ entries) =
      let later = lookup-insert key asked new entries in
      ground (arith, later, str_beq_iff key asked, str_beq_iff name key, str_beq_iff name asked)

  pub lookup-delete :
      (key asked : Str) (entries : Dict V)
      → lookup asked (delete key entries) ≡ (if key == asked then none else lookup asked entries)
  unfolding lookup delete
  lookup-delete key asked [] = ground arith
  lookup-delete key asked ((name, value) ∷ entries) =
      let later = lookup-delete key asked entries in
      ground (arith, later, str_beq_iff key asked, str_beq_iff name key, str_beq_iff name asked)

  -- What holds of every value of a map holds of one that is found.
  pub lookup-All {κ} :
      (P : V → Type κ) (k : Str) (m : Dict V) {v : V}
      → All (λ e. P e.1) m
      → lookup k m ≡ some v
      → P v
  unfolding lookup
  lookup-All P k [] h e = cc
  lookup-All P k ((j, w) ∷ m) {v} h e = elim (Bool-cases (j == k)) [
    | inl t ↦ let same : w ≡ v = ground arith in subst P same h.0
    | inr t ↦ lookup-All P k m h.1 (rw t at e)
  ]
