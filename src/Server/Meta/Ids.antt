-- ===== src/Server/Meta/Ids.antt =====
-- The ids of a bulk request (pkg/server/handler.go, `cleanIDs`).
use gomyadmin.Base.{
  ◌≡◌, ◌≢◌, ◌⊎◌, inl, inr, refl, sym, subst, ◌∙◌, true, false, ◌||◌, List, [], ◌∷◌, ◌++◌, Str, ◌==◌,
  str_eq, arith, any, All, All-append, In, map, IsDistinct, Bool-cases, str_beq_iff,
}
use gomyadmin.Text.{trim_space}
use gomyadmin.Server.Meta.{clean_loop, clean_ids}

In-append : (a : Str) (xs ys : List Str) → In a (xs ++ ys) → In a xs ⊎ In a ys
In-append a [] ys h = inr h
In-append a (x ∷ xs) ys (inl e) = inl (inl e)
In-append a (x ∷ xs) ys (inr h) = elim (In-append a xs ys h) [ inl i ↦ inl (inr i) | inr i ↦ inr i ]

In-append_left : (a : Str) (xs ys : List Str) → In a xs → In a (xs ++ ys)
In-append_left a [] ys h = absurd h
In-append_left a (x ∷ xs) ys (inl e) = inl e
In-append_left a (x ∷ xs) ys (inr h) = inr (In-append_left a xs ys h)

In-append_last : (a : Str) (xs : List Str) → In a (xs ++ a ∷ [])
In-append_last a [] = inl refl
In-append_last a (x ∷ xs) = inr (In-append_last a xs)

IsDistinct-append :
    (xs : List Str) (a : Str) → IsDistinct xs → ¬ In a xs → IsDistinct (xs ++ a ∷ [])
IsDistinct-append [] a h n = (λ i. i, tt)
IsDistinct-append (x ∷ xs) a (h, hs) n = (
  λ i. elim (In-append x xs (a ∷ []) i) [
    | inl j ↦ h j
    | inr j ↦ elim j [ inl e ↦ n (inl (sym e)) | inr z ↦ z ]
  ],
  IsDistinct-append xs a hs (λ i. n (inr i)),
)

seen-In : (id : Str) (seen : List Str) → any (λ other. other == id) seen ≡ true → In id seen
seen-In id [] h = absurd (cc h)
seen-In id (x ∷ seen) h = elim (Bool-cases (x == id)) [
  | inl e ↦ inl (sym ((str_beq_iff x id).0 e))
  | inr n ↦ inr (seen-In id seen (rw n at h))
]

not-In-seen : (id : Str) (seen : List Str) → any (λ other. other == id) seen ≡ false → ¬ In id seen
not-In-seen id [] h i = i
not-In-seen id (x ∷ seen) h (inl e) = ground (arith, str_beq_iff x id)
not-In-seen id (x ∷ seen) h (inr i) = not-In-seen id seen (ground arith) i

-- What has been cleaned so far, with the ids seen.
record IsClean (seen cleaned : List Str) : Type 0 where
  distinct : IsDistinct cleaned
  nonempty : All (λ id. id ≢ []) cleaned
  known : (id : Str) → In id cleaned → In id seen
  kept : (id : Str) → In id seen → In id cleaned

-- The ids `r` of a request with the raw ids `ids`, after those in `cleaned`.
pub record IsCleaned (cleaned ids r : List Str) : Type 0 where
  pub distinct : IsDistinct r
  pub nonempty : All (λ id. id ≢ []) r
  pub given : (id : Str) → In id r → In id cleaned ⊎ In id (map trim_space ids)
  pub complete : (id : Str) → id ≢ [] → In id cleaned ⊎ In id (map trim_space ids) → In id r

IsClean-more :
    (seen cleaned : List Str) (id : Str)
    → IsClean seen cleaned
    → id ≢ []
    → ¬ In id seen
    → IsClean (id ∷ seen) (cleaned ++ id ∷ [])
IsClean-more seen cleaned id h ne new = record {
  distinct = IsDistinct-append cleaned id h.distinct (λ i. new (h.known id i));
  nonempty = All-append (λ x. x ≢ []) cleaned (id ∷ []) h.nonempty (ne, tt);
  known = λ other i. elim (In-append other cleaned (id ∷ []) i) [
    | inl j ↦ inr (h.known other j)
    | inr j ↦ elim j [ inl e ↦ inl e | inr z ↦ absurd z ]
  ];
  kept = λ other i. elim i [
    | inl e ↦ subst (λ x. In x (cleaned ++ id ∷ [])) (sym e) (In-append_last id cleaned)
    | inr j ↦ In-append_left other cleaned (id ∷ []) (h.kept other j)
  ];
}

-- A round that skips an id that is empty or was there before.
IsCleaned-skip :
    (cleaned rest : List Str) (raw : Str) (r : List Str)
    → IsCleaned cleaned rest r
    → (trim_space raw ≡ []) ⊎ In (trim_space raw) cleaned
    → IsCleaned cleaned (raw ∷ rest) r
IsCleaned-skip cleaned rest raw r h why = record {
  distinct = h.distinct;
  nonempty = h.nonempty;
  given = λ id i. elim (h.given id i) [ inl j ↦ inl j | inr j ↦ inr (inr j) ];
  complete = λ id ne w. elim w [
    | inl i ↦ h.complete id ne (inl i)
    | inr j ↦ elim j [
      | inl e ↦ elim why [
        | inl z ↦ absurd (ne (e ∙ z))
        | inr k ↦ h.complete id ne (inl (subst (λ x. In x cleaned) (sym e) k))
      ]
      | inr k ↦ h.complete id ne (inr k)
    ]
  ];
}

-- A round that takes an id.
IsCleaned-take :
    (cleaned rest : List Str) (raw : Str) (r : List Str)
    → IsCleaned (cleaned ++ trim_space raw ∷ []) rest r
    → IsCleaned cleaned (raw ∷ rest) r
IsCleaned-take cleaned rest raw r h = record {
  distinct = h.distinct;
  nonempty = h.nonempty;
  given = λ id i. elim (h.given id i) [
    | inl j ↦ elim (In-append id cleaned (trim_space raw ∷ []) j) [
      | inl k ↦ inl k
      | inr k ↦ elim k [ inl e ↦ inr (inl e) | inr z ↦ absurd z ]
    ]
    | inr j ↦ inr (inr j)
  ];
  complete = λ id ne w. elim w [
    | inl i ↦ h.complete id ne (inl (In-append_left id cleaned (trim_space raw ∷ []) i))
    | inr j ↦ elim j [
      | inl e ↦ h.complete id ne (
          inl (
            subst (λ x. In x (cleaned ++ trim_space raw ∷ [])) (sym e)
              (In-append_last (trim_space raw) cleaned)))
      | inr k ↦ h.complete id ne (inr k)
    ]
  ];
}

skipped_why :
    (id : Str) (seen cleaned : List Str)
    → IsClean seen cleaned
    → (id == [] || any (λ other. other == id) seen) ≡ true
    → (id ≡ []) ⊎ In id cleaned
skipped_why id seen cleaned h t = elim (Bool-cases (id == [])) [
  | inl e ↦ inl ((str_beq_iff id []).0 e)
  | inr n ↦ inr (h.kept id (seen-In id seen (rw n at t)))
]

clean_loop-IsCleaned :
    (ids seen cleaned : List Str)
    → IsClean seen cleaned
    → IsCleaned cleaned ids (clean_loop seen ids cleaned)
unfolding clean_loop
clean_loop-IsCleaned [] seen cleaned h = record {
  distinct = h.distinct;
  nonempty = h.nonempty;
  given = λ id i. inl i;
  complete = λ id _ w. elim w [ inl i ↦ i | inr z ↦ absurd z ];
}
clean_loop-IsCleaned (raw ∷ rest) seen cleaned h =
    let id = trim_space raw in
    elim (Bool-cases (id == [] || any (λ other. other == id) seen)) [
      | inl skip ↦ rw skip (
          IsCleaned-skip cleaned rest raw _ (clean_loop-IsCleaned rest seen cleaned h)
            (skipped_why id seen cleaned h skip))
      | inr take ↦
          let ne : id ≢ [] = ground (arith, str_beq_iff id []) in
          let new : ¬ In id seen = not-In-seen id seen (ground arith) in
          rw take (
            IsCleaned-take cleaned rest raw _ (
              clean_loop-IsCleaned rest (id ∷ seen) (cleaned ++ id ∷ [])
                (IsClean-more seen cleaned id h ne new)))
    ]

-- The ids of a bulk request are distinct and not empty, and are exactly those raw ids, without the
-- white space around them, that are not empty.
pub clean_ids-IsCleaned : (ids : List Str) → IsCleaned [] ids (clean_ids ids)
unfolding clean_ids
clean_ids-IsCleaned ids =
    clean_loop-IsCleaned ids [] []
      (record { distinct = tt; nonempty = tt; known = λ _ i. i; kept = λ _ i. i })
