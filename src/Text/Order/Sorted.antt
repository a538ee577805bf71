-- ===== src/Text/Order/Sorted.antt =====
-- `sort.Strings` sorts, and keeps the strings.
use gomyadmin.Base.{
  ◌≡◌, ◌↔◌, refl, sym, true, false, List, [], ◌∷◌, arith, Str, nat_eq, In, IsDistinct, Bool-cases,
  inl, inr, ◌⊎◌,
}
use gomyadmin.Text.Order.{str_ltb, insert_sorted, sort_strings}

-- No string is before the one that it follows.
abbrev pub IsSorted : List Str → Type 0
IsSorted [] = Unit
IsSorted (s ∷ []) = Unit
IsSorted (s ∷ t ∷ rest) = (str_ltb t s ≡ false) × IsSorted (t ∷ rest)

str_ltb_asym : (s t : Str) → str_ltb t s ≡ true → str_ltb s t ≡ false
unfolding str_ltb
str_ltb_asym [] [] h = refl
str_ltb_asym [] (b ∷ t) h = cc
str_ltb_asym (a ∷ s) [] h = refl
str_ltb_asym (a ∷ s) (b ∷ t) h = ground (arith, str_ltb_asym s t)

insert_sorted-IsSorted :
    (s : Str) (rest : List Str) → IsSorted rest → IsSorted (insert_sorted s rest)
unfolding insert_sorted
insert_sorted-IsSorted s [] h = tt
insert_sorted-IsSorted s (t ∷ []) h = elim (Bool-cases (str_ltb t s)) [
  | inl e ↦ rw e (str_ltb_asym s t e, tt)
  | inr e ↦ rw e (e, tt)
]
insert_sorted-IsSorted s (t ∷ u ∷ rest) h =
    let later = insert_sorted-IsSorted s (u ∷ rest) h.1 in
    elim (Bool-cases (str_ltb t s)) [
      | inr e ↦ rw e (e, h)
      | inl e ↦ elim (Bool-cases (str_ltb u s)) [
        | inl f ↦ rw (e, f) (h.0, rw f at later)
        | inr f ↦ rw (e, f) (str_ltb_asym s t e, rw f at later)
      ]
    ]

pub sort_strings-IsSorted : (ss : List Str) → IsSorted (sort_strings ss)
unfolding sort_strings
sort_strings-IsSorted [] = tt
sort_strings-IsSorted (s ∷ ss) =
    insert_sorted-IsSorted s (sort_strings ss) (sort_strings-IsSorted ss)

In-insert_sorted :
    (n s : Str) (rest : List Str) → In n (insert_sorted s rest) ↔ ((n ≡ s) ⊎ In n rest)
unfolding insert_sorted
In-insert_sorted n s [] = (λ h. h, λ h. h)
In-insert_sorted n s (t ∷ rest) =
    let (into, back) = In-insert_sorted n s rest in
    elim (Bool-cases (str_ltb t s)) [
      | inl e ↦ rw e (
        λ h. elim h [
          | inl a ↦ inr (inl a)
          | inr b ↦ elim (into b) [ inl c ↦ inl c | inr d ↦ inr (inr d) ]
        ],
        λ h. elim h [
          | inl a ↦ inr (back (inl a))
          | inr b ↦ elim b [ inl c ↦ inl c | inr d ↦ inr (back (inr d)) ]
        ],
      )
      | inr e ↦ rw e (λ h. h, λ h. h)
    ]

-- The same strings are in the list.
pub In-sort_strings : (n : Str) (ss : List Str) → In n (sort_strings ss) ↔ In n ss
unfolding sort_strings
In-sort_strings n [] = (λ h. h, λ h. h)
In-sort_strings n (s ∷ ss) =
    let (into, back) = In-insert_sorted n s (sort_strings ss) in
    let (ins, out) = In-sort_strings n ss in
    (
      λ h. elim (into h) [ inl a ↦ inl a | inr b ↦ inr (ins b) ],
      λ h. elim h [ inl a ↦ back (inl a) | inr b ↦ back (inr (out b)) ],
    )

insert_sorted-IsDistinct :
    (s : Str) (rest : List Str) → ¬ In s rest → IsDistinct rest → IsDistinct (insert_sorted s rest)
unfolding insert_sorted
insert_sorted-IsDistinct s [] n d = (n, tt)
insert_sorted-IsDistinct s (t ∷ rest) n d = elim (Bool-cases (str_ltb t s)) [
  | inl e ↦ rw e (
    λ h. elim ((In-insert_sorted t s rest).0 h) [
      | inl same ↦ n (inl (sym same))
      | inr old ↦ d.0 old
    ],
    insert_sorted-IsDistinct s rest (λ i. n (inr i)) d.1,
  )
  | inr e ↦ rw e (n, d)
]

-- No string is in the list twice that was not.
pub sort_strings-IsDistinct : (ss : List Str) → IsDistinct ss → IsDistinct (sort_strings ss)
unfolding sort_strings
sort_strings-IsDistinct [] d = tt
sort_strings-IsDistinct (s ∷ ss) d =
    insert_sorted-IsDistinct s (sort_strings ss) (λ i. d.0 ((In-sort_strings s ss).0 i))
      (sort_strings-IsDistinct ss d.1)
