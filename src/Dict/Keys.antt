-- ===== src/Dict/Keys.antt =====
-- The keys of a map after a write.
use gomyadmin.Base.{
  ◌≡◌, subst, [], ◌∷◌, Str, ◌==◌, str_eq, str_beq_iff, map, All, In, IsDistinct, Bool-cases, inl,
  inr, ◌⊎◌,
}
use gomyadmin.Dict.{Dict, insert}

module _ {V : Type 0} where
  pub insert-All :
      (P : Str × V → Type 0) (k : Str) (v : V) (m : Dict V)
      → P (k, v)
      → All P m
      → All P (insert k v m)
  unfolding insert
  insert-All P k v [] p h = (p, tt)
  insert-All P k v ((j, w) ∷ m) p h = elim (Bool-cases (j == k)) [
    | inl t ↦ rw t (p, h.1)
    | inr t ↦ rw t (h.0, insert-All P k v m p h.1)
  ]

  pub insert-In :
      (k asked : Str) (v : V) (m : Dict V)
      → In asked (map (λ e. e.0) (insert k v m))
      → (asked ≡ k) ⊎ In asked (map (λ e. e.0) m)
  unfolding insert
  insert-In k asked v [] h = h
  insert-In k asked v ((j, w) ∷ m) h = elim (Bool-cases (j == k)) [
    | inl t ↦ elim (let g : In asked (k ∷ map (λ e. e.0) m) = rw t at h in g) [
      | inl e ↦ inl e
      | inr i ↦ inr (inr i)
    ]
    | inr t ↦ elim (let g : In asked (j ∷ map (λ e. e.0) (insert k v m)) = rw t at h in g) [
      | inl e ↦ inr (inl e)
      | inr i ↦ elim (insert-In k asked v m i) [ inl e ↦ inl e | inr old ↦ inr (inr old) ]
    ]
  ]

  pub insert-IsDistinct :
      (k : Str) (v : V) (m : Dict V)
      → IsDistinct (map (λ e. e.0) m)
      → IsDistinct (map (λ e. e.0) (insert k v m))
  unfolding insert
  insert-IsDistinct k v [] h = ((λ e. e), tt)
  insert-IsDistinct k v ((j, w) ∷ m) h = elim (Bool-cases (j == k)) [
    | inl t ↦ rw t (subst (λ z. ¬ In z (map (λ e. e.0) m)) ((str_beq_iff j k).0 t) h.0, h.1)
    | inr t ↦ rw t (
      (λ e. elim (insert-In k j v m e) [
        | inl same ↦ cc (t, (str_beq_iff j k).1 same)
        | inr old ↦ h.0 old
      ]),
      insert-IsDistinct k v m h.1,
    )
  ]
