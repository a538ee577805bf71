-- ===== src/Scaffold/Columns/Sound.antt =====
-- What is generated for a column: a method that there is, and a name.
use gomyadmin.Base.{
  ℕ, zero, suc, ◌-◌, ◌≡◌, ◌≢◌, ◌<◌, refl, Bool, true, not, ◌&&◌, some, List, [], ◌∷◌, ◌++◌, Str,
  ◌==◌, str_eq, str_beq_iff, arith, ltb, All, length, take, any, Bool-cases, inl, inr, Option-cases,
}
use gomyadmin.Dict.{lookup, lookup-All}
use gomyadmin.Registry.Fields.{FieldType, decimal, money}
use gomyadmin.Registry.Names.{upper_first}
use gomyadmin.Scaffold.Columns.Names.{
  column_to_field_name, singularize, camel_word, capitalize, field_words, resource_words,
  table_to_resource_name, acronyms,
}
use gomyadmin.Scaffold.Columns.{
  Column, column_types, column_to_field_type, suggest_field_type, is_likely_email,
  is_likely_password, field_type_method_name, method_of, GeneratedField, generated_field,
  column_to_field,
}
use gomyadmin.Text.Case.{to_lower, upper_byte}
use gomyadmin.Text.{lit, trim_space, has_suffix, split_byte}

-- The type that is set in place of a suggested one.
abbrev pub stored_type : FieldType → FieldType
stored_type money = decimal
stored_type t = t

-- The name that is generated is that of a method without parameters, which sets the type.
abbrev pub IsMethod : FieldType → Type 0
IsMethod t = method_of (stored_type t) ≡ some (field_type_method_name t)

column_types-IsMethod : All (λ e. IsMethod e.1) column_types
unfolding method_of field_type_method_name upper_byte
column_types-IsMethod = search

column_to_field_type-IsMethod : (data_type : Str) → IsMethod (column_to_field_type data_type)
unfolding column_to_field_type method_of field_type_method_name upper_byte
column_to_field_type-IsMethod data_type =
    let lowered = to_lower (trim_space data_type) in
    elim (Option-cases (lookup lowered column_types)) [
      | inl e ↦ rw (column_to_field_type, e) refl
      | inr (t, e) ↦
          rw (column_to_field_type, e)
            (lookup-All IsMethod lowered column_types column_types-IsMethod e)
    ]

suggest_field_type-IsMethod : (col : Column) → IsMethod (suggest_field_type col)
unfolding suggest_field_type method_of field_type_method_name upper_byte
suggest_field_type-IsMethod col = elim (Bool-cases (is_likely_email col)) [
  | inl t ↦ rw (suggest_field_type, t) refl
  | inr t ↦ elim (Bool-cases (is_likely_password col)) [
    | inl u ↦ rw (suggest_field_type, t, u) refl
    | inr u ↦ rw (suggest_field_type, t, u) (column_to_field_type-IsMethod col.data_type)
  ]
]

take-ne-nil : (m c : ℕ) (s : Str) → 0 < m → take m (c ∷ s) ≢ []
take-ne-nil zero c s h e = elim h [ ]
take-ne-nil (suc m) c s h e = cc

chop-ne-nil : (n : ℕ) (word : Str) → n < length word → take (length word - n) word ≢ []
chop-ne-nil n [] h = elim h [ ]
chop-ne-nil n (c ∷ s) h = take-ne-nil (length (c ∷ s) - n) c s (omega arith)

append-ne-nil : (s : Str) (c : ℕ) (t : Str) → s ++ c ∷ t ≢ []
append-ne-nil [] c t e = cc
append-ne-nil (d ∷ s) c t e = cc

longer :
    (n : ℕ) (word ending : Str)
    → has_suffix word ending ≡ true
    → n < length ending
    → n < length word
unfolding has_suffix
longer n word ending h k = ground arith

longer_any :
    (n : ℕ) (word : Str) (endings : List Str)
    → any (λ ending. has_suffix word ending) endings ≡ true
    → All (λ ending. n < length ending) endings
    → n < length word
longer_any n word [] h k = cc
longer_any n word (e ∷ es) h k = elim (Bool-cases (has_suffix word e)) [
  | inl t ↦ longer n word e t k.0
  | inr t ↦ longer_any n word es (rw t at h) k.1
]

-- No word is cut down to nothing.
singularize-ne-nil : (word : Str) → word ≢ [] → singularize word ≢ []
unfolding singularize
singularize-ne-nil word h =
    let endings = lit "sses" ∷ lit "xes" ∷ lit "zes" ∷ lit "ches" ∷ lit "shes" ∷ [] in
    let two = any (λ ending. has_suffix word ending) endings in
    let one =
      (has_suffix word (lit "s") && not (has_suffix word (lit "ss"))) && ltb 1 (length word) in
    elim (Bool-cases (has_suffix word (lit "ies") && ltb 3 (length word))) [
      | inl t ↦ rw t (append-ne-nil (take (length word - 3) word) b'y' [])
      | inr t ↦ elim (Bool-cases two) [
        | inl u ↦ rw (t, u) (chop-ne-nil 2 word (longer_any 2 word endings u (omega arith)))
        | inr u ↦ elim (Bool-cases (has_suffix word (lit "ses"))) [
          | inl v ↦ rw (t, u, v) (chop-ne-nil 2 word (longer 2 word (lit "ses") v (omega arith)))
          | inr v ↦ elim (Bool-cases one) [
            | inl w ↦ rw (t, u, v, w) (chop-ne-nil 1 word (ground arith))
            | inr w ↦ rw (t, u, v, w) h
          ]
        ]
      ]
    ]

camel_word_total : (word : Str) → word ≢ [] → (w : Str) × (camel_word word ≡ some w)
unfolding camel_word capitalize
camel_word_total [] h = absurd (h refl)
camel_word_total (c ∷ s) h = elim (Option-cases (lookup (c ∷ s) acronyms)) [
  | inl e ↦ (upper_first (c ∷ s), rw (camel_word, e) refl)
  | inr (a, e) ↦ (a, rw (camel_word, e) refl)
]

field_words_total : (words : List Str) → (name : Str) × (field_words words ≡ some name)
unfolding field_words
field_words_total [] = ([], refl)
field_words_total (word ∷ rest) =
    let (ws, later) = field_words_total rest in
    elim (Bool-cases (word == [])) [
      | inl t ↦ (ws, rw t later)
      | inr t ↦
          let (w, e) = camel_word_total word (λ none. cc (t, (str_beq_iff word []).1 none)) in
          (w ++ ws, rw (t, e, later) refl)
    ]

resource_words_total : (words : List Str) → (name : Str) × (resource_words words ≡ some name)
unfolding resource_words
resource_words_total [] = ([], refl)
resource_words_total (word ∷ rest) =
    let (ws, later) = resource_words_total rest in
    elim (Bool-cases (word == [])) [
      | inl t ↦ (ws, rw t later)
      | inr t ↦
          let some_word = singularize-ne-nil word (λ none. cc (t, (str_beq_iff word []).1 none)) in
          let (w, e) = camel_word_total (singularize word) some_word in
          (w ++ ws, rw (t, e, later) refl)
    ]

-- For every name of a table there is the name of a resource: no slice is out of range.
pub table_to_resource_name_total :
    (table : Str) → (name : Str) × (table_to_resource_name table ≡ some name)
unfolding table_to_resource_name
table_to_resource_name_total table = resource_words_total (split_byte (to_lower table) b'_')

-- For every column there is a field, with a name, and with the name of a method without parameters that
-- sets the suggested type, or decimal in place of money.
pub column_to_field_lem :
    (col : Column) (is_pk : Bool)
    → (g : GeneratedField) × (column_to_field col is_pk ≡ some g)
      × (method_of (stored_type (suggest_field_type col)) ≡ some g.method)
      × (column_to_field_name col.name ≡ some g.name)
unfolding column_to_field column_to_field_name generated_field
column_to_field_lem col is_pk =
    let (name, e) = field_words_total (split_byte (to_lower col.name) b'_') in
    (
      generated_field name col is_pk,
      rw (column_to_field, column_to_field_name, e) refl,
      suggest_field_type-IsMethod col,
      rw (column_to_field_name, e) refl,
    )
