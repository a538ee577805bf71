-- ===== src/Scaffold/Columns/Names.antt =====
-- The names that `internal/cli/cli.go` gives to tables and columns
use gomyadmin.Base.{
  ℕ, ◌-◌, not, ◌&&◌, Option, none, some, List, [], ◌∷◌, ◌++◌, Str, ◌==◌, str_eq, nat_eq, ltb,
  if◌then◌else◌, length, take, any,
}
use gomyadmin.Dict.{Dict, lookup}
use gomyadmin.Registry.Names.{upper_first}
use gomyadmin.Text.Case.{to_lower}
use gomyadmin.Text.{lit, has_suffix, split_byte}

-- `word[:len(word)-n]`
abbrev chop : ℕ → Str → Str
chop n word = take (length word - n) word

unfoldable pub singularize : Str → Str
unfolding has_suffix
singularize word =
    if has_suffix word (lit "ies") && ltb 3 (length word)
    then chop 3 word ++ lit "y"
    else if any (λ ending. has_suffix word ending)
        (lit "sses" ∷ lit "xes" ∷ lit "zes" ∷ lit "ches" ∷ lit "shes" ∷ [])
    then chop 2 word
    else if has_suffix word (lit "ses")
    then chop 2 word
    else if (has_suffix word (lit "s") && not (has_suffix word (lit "ss"))) && ltb 1 (length word)
    then chop 1 word
    else word

-- `acronyms`
abbrev pub acronyms : Dict Str
acronyms =
    (lit "id", lit "ID")
    ∷ (lit "url", lit "URL")
    ∷ (lit "uuid", lit "UUID")
    ∷ (lit "api", lit "API")
    ∷ (lit "ip", lit "IP")
    ∷ (lit "uri", lit "URI")
    ∷ []

-- `strings.ToUpper(word[:1]) + word[1:]`. A slice of an empty string is a panic, which is `none`.
unfoldable pub capitalize : Str → Option Str
unfolding upper_first
capitalize [] = none
capitalize (c ∷ s) = some (upper_first (c ∷ s))

-- A word behind the test for an empty one
unfoldable pub camel_word : Str → Option Str
unfolding capitalize lookup
camel_word word = elim (lookup word acronyms) [ some a ↦ some a | none ↦ capitalize word ]

-- `sb.WriteString`, where each side may be a panic
abbrev pub write : Option Str → Option Str → Option Str
write none later = none
write (some w) none = none
write (some w) (some ws) = some (w ++ ws)

-- The loop of `columnToFieldName`
unfoldable pub field_words : List Str → Option Str
unfolding camel_word
field_words [] = some []
field_words (word ∷ rest) =
    let later = field_words rest in if word == [] then later else write (camel_word word) later

unfoldable pub column_to_field_name : Str → Option Str
unfolding field_words
column_to_field_name col = field_words (split_byte (to_lower col) b'_')

-- The loop of `tableToResourceName`
unfoldable pub resource_words : List Str → Option Str
unfolding camel_word singularize
resource_words [] = some []
resource_words (word ∷ rest) =
    let later = resource_words rest in
    if word == [] then later else write (camel_word (singularize word)) later

unfoldable pub table_to_resource_name : Str → Option Str
unfolding resource_words
table_to_resource_name table = resource_words (split_byte (to_lower table) b'_')
