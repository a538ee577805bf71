-- ===== src/Registry/Names.antt =====
-- The names of a resource: `resourceName` and its helpers of `pkg/admin/app.go`, `slug` of
-- `pkg/admin/slug.go`, and `camelToSnake` of `pkg/server/meta.go`.
pub mod Words
pub mod Slugs
use gomyadmin.Base.{
  ℕ, zero, suc, ◌+◌, ◌-◌, Bool, true, false, not, ◌&&◌, ◌||◌, Option, none, some, List, [], ◌∷◌,
  ◌++◌, Str, ◌==◌, nat_eq, str_eq, ltb, if◌then◌else◌, length, take, get_elem?, map, any,
}
use gomyadmin.Text.{lit, trim_space, has_suffix, join, replace_byte, is_space}
use gomyadmin.Text.Case.{
  is_upper, is_lower, is_digit, is_letter, lower_byte, upper_byte, to_lower, contains,
}

-- `flush` of `splitWords`
abbrev pub flush : List Str → Str → List Str
flush words current = if current == [] then words else words ++ current ∷ []

-- `nextLower`
abbrev pub next_lower : Str → Bool
next_lower [] = false
next_lower (c ∷ _) = is_lower c

-- The test at an upper case rune behind `prev`.
unfoldable pub starts_word : ℕ → Str → Str → Bool
starts_word prev current rest =
    is_lower prev
    || (is_digit prev || (is_upper prev && (next_lower rest && ltb 1 (length current))))

unfoldable pub is_separator : ℕ → Bool
unfolding is_space
is_separator r = r == b'_' || (r == b'-' || is_space r)

-- The loop of `splitWords`: the words so far, the current word, and the rune before.
unfoldable pub words_loop : List Str → Str → ℕ → Str → List Str
unfolding starts_word is_separator
words_loop words current prev [] = flush words current
words_loop words current prev (r ∷ rest) =
    let cut = words_loop (flush words current) [] r rest in
    let begun = words_loop (flush words current) (r ∷ []) r rest in
    let grown = words_loop words (current ++ r ∷ []) r rest in
    if is_separator r
    then cut
    else if (ltb 0 (length current) && is_upper r) && starts_word prev current rest
    then begun
    else grown

unfoldable pub split_words : Str → List Str
unfolding words_loop
split_words value = words_loop [] [] 0 (trim_space value)

unfoldable pub upper_first : Str → Str
upper_first [] = []
upper_first (c ∷ s) = upper_byte c ∷ s

unfoldable pub is_vowel : ℕ → Bool
is_vowel r = any (λ v. lower_byte r == v) (b'a' ∷ b'e' ∷ b'i' ∷ b'o' ∷ b'u' ∷ [])

-- The loop of `isAllUpper`
all_upper_loop : Bool → Str → Bool
all_upper_loop has_letter [] = has_letter
all_upper_loop has_letter (r ∷ rest) =
    let seen = all_upper_loop true rest in
    let skipped = all_upper_loop has_letter rest in
    if is_letter r then (if not (is_upper r) then false else seen) else skipped

unfoldable pub is_all_upper : Str → Bool
unfolding all_upper_loop
is_all_upper value = all_upper_loop false value

title_word : Str → Str
unfolding is_all_upper upper_first
title_word part = if is_all_upper part then part else upper_first (to_lower part)

unfoldable pub titleize : Str → Str
unfolding title_word split_words
titleize given =
    let value = trim_space given in
    if value == [] then value else join (map title_word (split_words value)) (lit " ")

-- `strings.HasSuffix(lower, "y") && len(lower) > 1 && !isVowel(rune(lower[len(lower)-2]))`
ends_in_consonant_y : Str → Bool
unfolding is_vowel
ends_in_consonant_y lower =
    has_suffix lower (lit "y") && elim (get_elem? lower (length lower - 2)) [
      | none ↦ false
      | some r ↦ ltb 1 (length lower) && not (is_vowel r)
    ]

unfoldable pub pluralize : Str → Str
unfolding ends_in_consonant_y
pluralize value =
    let lower = to_lower value in
    if any (λ ending. has_suffix lower ending)
      (lit "s" ∷ lit "x" ∷ lit "z" ∷ lit "ch" ∷ lit "sh" ∷ [])
    then value ++ lit "es"
    else if ends_in_consonant_y lower
    then take (length value - 1) value ++ lit "ies"
    else value ++ lit "s"

unfoldable pub snake_plural : Str → Str
unfolding split_words pluralize
snake_plural value = pluralize (join (map to_lower (split_words value)) (lit "_"))

-- What `reflect` tells of a model: its type is a named one, with the empty name for a literal type,
-- or a pointer.
pub data ModelType : Type 0 where
  named : Str → ModelType
  pointer : ModelType → ModelType

-- `name := strings.ToLower(words[0])`, and the loop behind it
camel_words : List Str → Str
camel_words [] = lit "resource"
camel_words (first ∷ rest) = to_lower first ++ join (map (λ w. upper_first (to_lower w)) rest) []

type_name : ModelType → Str
type_name (named name) = name
type_name (pointer t) = type_name t

-- `none` is the model `nil`.
unfoldable pub resource_name : Option ModelType → Str
unfolding type_name camel_words split_words
resource_name none = lit "resource"
resource_name (some t) =
    if type_name t == [] then lit "resource" else camel_words (split_words (type_name t))

-- `strings.ReplaceAll(value, "--", "-")`
unfoldable pub squeeze : Str → Str
squeeze [] = []
squeeze (c ∷ []) = c ∷ []
squeeze (c ∷ d ∷ s) =
    let cut = squeeze s in
    let kept = squeeze (d ∷ s) in if c == b'-' && d == b'-' then b'-' ∷ cut else c ∷ kept

-- The loop of `slug`. The fuel is the length, since each round drops a byte.
unfoldable pub collapse : ℕ → Str → Str
unfolding squeeze
collapse zero value = value
collapse (suc fuel) value = elim (contains value (lit "--")) [
  | true ↦ collapse fuel (squeeze value)
  | false ↦ value
]

-- `slug` before its loop
unfoldable pub dashed : Str → Str
dashed value =
    replace_byte (replace_byte (trim_space (to_lower value)) b'_' (lit "-")) b' ' (lit "-")

unfoldable pub slug : Str → Str
unfolding collapse dashed
slug value = collapse (length (dashed value)) (dashed value)

-- The test of `camelToSnake` at an upper case rune behind `prev`
unfoldable pub breaks_before : ℕ → Str → Bool
breaks_before prev rest = is_lower prev || (is_digit prev || (is_upper prev && next_lower rest))

-- The loop of `camelToSnake` behind its first rune
unfoldable pub snake_loop : ℕ → Str → Str
unfolding breaks_before
snake_loop prev [] = []
snake_loop prev (r ∷ rest) =
    let later = snake_loop r rest in
    if is_upper r
    then (if breaks_before prev rest then b'_' ∷ lower_byte r ∷ later else lower_byte r ∷ later)
    else r ∷ later

unfoldable pub camel_to_snake : Str → Str
unfolding snake_loop
camel_to_snake [] = []
camel_to_snake (r ∷ rest) = (if is_upper r then lower_byte r else r) ∷ snake_loop r rest
