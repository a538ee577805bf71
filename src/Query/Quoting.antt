-- ===== src/Query/Quoting.antt =====
-- A quoted identifier (pkg/postgres/query.go, `quoteIdent`) against the reader of SQL's quoted
-- identifiers: a double quote opens and closes one, and a doubled quote stands for a quote in it.
use gomyadmin.Base.{
  ℕ, ◌≡◌, refl, ap, ◌∙◌, ◌≢◌, true, false, Option, none, some, [], ◌∷◌, ◌++◌, append_assoc, Str,
  ◌==◌, nat_eq, arith, if◌then◌else◌, Bool-cases, inl, inr,
}
use gomyadmin.Text.{lit, replace_byte}
use gomyadmin.Query.{quote_ident}

abbrev with_byte : ℕ → Option (Str × Str) → Option (Str × Str)
with_byte c none = none
with_byte c (some (s, rest)) = some (c ∷ s, rest)

-- The name after an opening quote, and the text after the closing one.
unfoldable pub read_name : Str → Option (Str × Str)
read_name [] = none
read_name (c ∷ []) = if c == b'"' then some ([], []) else none
read_name (c ∷ d ∷ s) =
    let doubled = with_byte c (read_name s) in
    let plain = with_byte c (read_name (d ∷ s)) in
    if c == b'"' then (if d == b'"' then doubled else some ([], d ∷ s)) else plain

unfoldable pub read_identifier : Str → Option (Str × Str)
unfolding read_name
read_identifier [] = none
read_identifier (c ∷ s) = if c == b'"' then read_name s else none

-- The text does not go on with a quote.
abbrev pub StartsPlain : Str → Type 0
StartsPlain [] = Unit
StartsPlain (c ∷ _) = c ≢ b'"'

read_name-end : (rest : Str) → StartsPlain rest → read_name (b'"' ∷ rest) ≡ some ([], rest)
unfolding read_name
read_name-end [] h = refl
read_name-end (d ∷ rest) h = ground arith

-- A byte that is not a quote, before text that is not empty.
read_name-plain :
    (c : ℕ) (s : Str) (d : ℕ) (t : Str)
    → c ≢ b'"'
    → s ≡ d ∷ t
    → read_name (c ∷ s) ≡ with_byte c (read_name s)
unfolding read_name
read_name-plain c s d t h e = rw e (ground arith)

closing : Str → Str → Str
closing s rest = replace_byte s b'"' (lit "\"\"") ++ (b'"' ∷ rest)

closing_cons : (s rest : Str) → (d : ℕ) × (t : Str) × (closing s rest ≡ d ∷ t)
unfolding closing replace_byte
closing_cons [] rest = (b'"', rest, refl)
closing_cons (c ∷ s) rest = elim (Bool-cases (c == b'"')) [
  | inl q ↦ (b'"', b'"' ∷ closing s rest, rw q)
  | inr p ↦ (c, closing s rest, rw p)
]

closing_quote :
    (c : ℕ) (s rest : Str)
    → (c == b'"') ≡ true
    → closing (c ∷ s) rest ≡ b'"' ∷ b'"' ∷ closing s rest
unfolding closing replace_byte
closing_quote c s rest q = rw q

closing_plain :
    (c : ℕ) (s rest : Str) → (c == b'"') ≡ false → closing (c ∷ s) rest ≡ c ∷ closing s rest
unfolding closing replace_byte
closing_plain c s rest p = rw p

read_name-doubled : (s : Str) → read_name (b'"' ∷ b'"' ∷ s) ≡ with_byte b'"' (read_name s)
unfolding read_name
read_name-doubled s = refl

read_name-closing : (s rest : Str) → StartsPlain rest → read_name (closing s rest) ≡ some (s, rest)
read_name-closing [] rest h = unfold closing replace_byte in read_name-end rest h
read_name-closing (c ∷ s) rest h = elim (Bool-cases (c == b'"')) [
  | inl q ↦
      let same : b'"' ≡ c = ground arith in
      ap read_name (closing_quote c s rest q)
      ∙ read_name-doubled (closing s rest)
      ∙ ap (with_byte b'"') (read_name-closing s rest h)
      ∙ ap (λ (k : ℕ). some (k ∷ s, rest)) same
  | inr p ↦
      let (d, t, e) = closing_cons s rest in
      ap read_name (closing_plain c s rest p)
      ∙ read_name-plain c (closing s rest) d t (ground arith) e
      ∙ ap (with_byte c) (read_name-closing s rest h)
]

-- Whatever the identifier, a reader of the quoted text finds exactly that identifier, and after it
-- the text that follows, if that does not go on with a quote.
pub read_identifier-quote_ident :
    (s rest : Str) → StartsPlain rest → read_identifier (quote_ident s ++ rest) ≡ some (s, rest)
unfolding read_identifier quote_ident closing
read_identifier-quote_ident s rest h =
    ap read_name (append_assoc (replace_byte s b'"' (lit "\"\"")) (lit "\"") rest)
    ∙ read_name-closing s rest h
