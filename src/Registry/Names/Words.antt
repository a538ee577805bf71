-- ===== src/Registry/Names/Words.antt =====
-- What the names are made of: the words of `splitWords`, and the runes of `camelToSnake`.
use gomyadmin.Base.{
  ℕ, ◌≡◌, ◌≢◌, ◌∙◌, refl, sym, ap, false, not, ◌&&◌, List, [], ◌∷◌, ◌++◌, arith, Str, nat_eq,
  str_eq, str_beq, length, if◌then◌else◌, keep, All, All-append, append_assoc, append-nil,
  Bool-cases, inl, inr, ltb,
}
use gomyadmin.Registry.Names.{
  flush, starts_word, is_separator, words_loop, split_words, snake_loop, camel_to_snake,
  breaks_before,
}
use gomyadmin.Text.Case.{is_upper, lower_byte}
use gomyadmin.Text.{trim_space}

-- The words one after the other.
abbrev pub flat : List Str → Str
flat [] = []
flat (w ∷ ws) = w ++ flat ws

flat-append : (ws vs : List Str) → flat (ws ++ vs) ≡ flat ws ++ flat vs
flat-append [] vs = refl
flat-append (w ∷ ws) vs =
    ap (λ z. w ++ z) (flat-append ws vs) ∙ sym (append_assoc w (flat ws) (flat vs))

flat-flush : (ws : List Str) (current : Str) → flat (flush ws current) ≡ flat ws ++ current
flat-flush ws [] = unfold str_beq in sym (append-nil (flat ws))
flat-flush ws (c ∷ s) =
    unfold str_beq in (flat-append ws ((c ∷ s) ∷ []) ∙ ap (λ z. flat ws ++ z) (append-nil (c ∷ s)))

flush-All :
    (ws : List Str) (current : Str) → All (λ w. w ≢ []) ws → All (λ w. w ≢ []) (flush ws current)
flush-All ws [] h = unfold str_beq in h
flush-All ws (c ∷ s) h =
    unfold str_beq in All-append (λ w. w ≢ []) ws ((c ∷ s) ∷ []) h ((λ e. cc), tt)

abbrev pub letters : Str → Str
letters s = keep (λ r. not (is_separator r)) s

words_loop-flat :
    (ws : List Str) (current : Str) (prev : ℕ) (rs : Str)
    → flat (words_loop ws current prev rs) ≡ flat ws ++ (current ++ letters rs)
unfolding words_loop keep
words_loop-flat ws current prev [] =
    flat-flush ws current ∙ ap (λ z. flat ws ++ z) (sym (append-nil current))
words_loop-flat ws current prev (r ∷ rest) =
    let cut = words_loop-flat (flush ws current) [] r rest in
    let begun = words_loop-flat (flush ws current) (r ∷ []) r rest in
    let grown = words_loop-flat ws (current ++ r ∷ []) r rest in
    let flushed = flat-flush ws current in
    elim (Bool-cases (is_separator r)) [
      | inl t ↦ rw t (
          cut ∙ ap (λ z. z ++ letters rest) flushed ∙ append_assoc (flat ws) current (letters rest))
      | inr t ↦
          elim (Bool-cases
            ((ltb 0 (length current) && is_upper r) && starts_word prev current rest)) [
              | inl u ↦
                  rw (t, u)
                    (begun
                      ∙ ap (λ z. z ++ (r ∷ letters rest)) flushed
                      ∙ append_assoc (flat ws) current (r ∷ letters rest))
              | inr u ↦
                  rw (t, u)
                    (grown ∙ ap (λ z. flat ws ++ z) (append_assoc current (r ∷ []) (letters rest)))
            ]
    ]

words_loop-All :
    (ws : List Str) (current : Str) (prev : ℕ) (rs : Str)
    → All (λ w. w ≢ []) ws
    → All (λ w. w ≢ []) (words_loop ws current prev rs)
unfolding words_loop
words_loop-All ws current prev [] h = flush-All ws current h
words_loop-All ws current prev (r ∷ rest) h =
    let flushed = flush-All ws current h in
    let cut = words_loop-All (flush ws current) [] r rest flushed in
    let begun = words_loop-All (flush ws current) (r ∷ []) r rest flushed in
    let grown = words_loop-All ws (current ++ r ∷ []) r rest h in
    elim (Bool-cases (is_separator r)) [
      | inl t ↦ rw t cut
      | inr t ↦
          elim (Bool-cases
            ((ltb 0 (length current) && is_upper r) && starts_word prev current rest)) [
              | inl u ↦ rw (t, u) begun
              | inr u ↦ rw (t, u) grown
            ]
    ]

-- The words that splitWords finds are not empty, and one after the other they are the trimmed text
-- without its underscores, dashes and spaces.
pub split_words_lem :
    (value : Str)
    → All (λ w. w ≢ []) (split_words value)
      × (flat (split_words value) ≡ letters (trim_space value))
unfolding split_words
split_words_lem value =
    (words_loop-All [] [] 0 (trim_space value) tt, words_loop-flat [] [] 0 (trim_space value))

abbrev pub Plain : ℕ → Type 0
Plain r = is_upper r ≡ false

lower-Plain : (r : ℕ) → Plain (if is_upper r then lower_byte r else r)
unfolding lower_byte is_upper
lower-Plain r = ground arith

snake_loop-Plain : (prev : ℕ) (rs : Str) → All Plain (snake_loop prev rs)
unfolding snake_loop
snake_loop-Plain prev [] = tt
snake_loop-Plain prev (r ∷ rest) =
    let later = snake_loop-Plain r rest in
    let here = lower-Plain r in
    elim (Bool-cases (is_upper r)) [
      | inl t ↦ elim (Bool-cases (breaks_before prev rest)) [
        | inl u ↦ rw (t, u) ((unfold is_upper in refl), ((rw t at here), later))
        | inr u ↦ rw (t, u) ((rw t at here), later)
      ]
      | inr t ↦ rw t (t, later)
    ]

snake_loop-id : (prev : ℕ) (rs : Str) → All Plain rs → snake_loop prev rs ≡ rs
unfolding snake_loop
snake_loop-id prev [] h = refl
snake_loop-id prev (r ∷ rest) h = rw (h.0) (ap (λ z. r ∷ z) (snake_loop-id r rest h.1))

camel_to_snake-Plain : (s : Str) → All Plain (camel_to_snake s)
unfolding camel_to_snake
camel_to_snake-Plain [] = tt
camel_to_snake-Plain (r ∷ rest) = (lower-Plain r, snake_loop-Plain r rest)

-- What has no upper case is left as it is.
pub camel_to_snake-id : (s : Str) → All Plain s → camel_to_snake s ≡ s
unfolding camel_to_snake
camel_to_snake-id [] h = refl
camel_to_snake-id (r ∷ rest) h = rw (h.0) (ap (λ z. r ∷ z) (snake_loop-id r rest h.1))

-- camelToSnake leaves no upper case, and changes nothing when it is applied to its own result.
pub camel_to_snake_lem :
    (s : Str)
    → All Plain (camel_to_snake s) × (camel_to_snake (camel_to_snake s) ≡ camel_to_snake s)
camel_to_snake_lem s =
    let plain = camel_to_snake-Plain s in (plain, camel_to_snake-id (camel_to_snake s) plain)
