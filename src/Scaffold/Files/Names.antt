-- ===== src/Scaffold/Files/Names.antt =====
-- `splitWords`, `resourceFileName`, `pluralSnake` and `moduleName` of `internal/generator/generator.go`
use gomyadmin.Base.{
  ℕ, ◌-◌, Bool, true, false, not, ◌&&◌, ◌||◌, Option, none, some, List, [], ◌∷◌, ◌++◌, Str, ◌==◌,
  str_eq, nat_eq, ltb, if◌then◌else◌, length, take, get_elem?, any, reverse,
}
use gomyadmin.Registry.Names.{flush, next_lower}
use gomyadmin.Storage.Local.{clean}
use gomyadmin.Text.Case.{is_upper, is_lower, is_digit, to_lower}
use gomyadmin.Text.{lit, trim_space, has_suffix, join, replace_byte, split_byte}

-- The loop of `splitWords`, with the words joined by spaces
unfoldable pub name_words : List Str → Str → ℕ → Str → List Str
name_words words current prev [] = flush words current
name_words words current prev (r ∷ rest) =
    let cut = name_words (flush words current) [] r rest in
    let begun = name_words (flush words current) (r ∷ []) r rest in
    let grown = name_words words (current ++ r ∷ []) r rest in
    if r == b'_' || (r == b'-' || r == b' ')
    then cut
    else if (ltb 0 (length current) && is_upper r)
        && (is_lower prev
            || (is_digit prev || (is_upper prev && (next_lower rest && ltb 1 (length current)))))
    then begun
    else grown

unfoldable pub spaced_words : Str → Str
unfolding name_words
spaced_words name = join (name_words [] [] 0 (trim_space name)) (lit " ")

unfoldable pub resource_file_name : Str → Str
unfolding spaced_words
resource_file_name name =
    replace_byte (to_lower (spaced_words name)) b' ' (lit "_") ++ lit "_resource.go"

-- `!strings.ContainsRune("aeiou", rune(prev))`
abbrev is_consonant : Option ℕ → Bool
is_consonant none = false
is_consonant (some c) = not (any (λ v. v == c) (lit "aeiou"))

unfoldable pub plural_snake : Str → Str
unfolding spaced_words
plural_snake name =
    let base = replace_byte (to_lower (spaced_words name)) b' ' (lit "_") in
    let prev = get_elem? base (length base - 2) in
    if any (λ ending. has_suffix base ending)
      (lit "s" ∷ lit "x" ∷ lit "z" ∷ lit "ch" ∷ lit "sh" ∷ [])
    then base ++ lit "es"
    else if (has_suffix base (lit "y") && ltb 1 (length base)) && is_consonant prev
    then take (length base - 1) base ++ lit "ies"
    else base ++ lit "s"

-- The loop of `moduleName`: what is written, and `lastDash`
unfoldable pub module_loop : Str → Bool → Str → Str
module_loop b last_dash [] = b
module_loop b last_dash (r ∷ rest) =
    let kept = module_loop (b ++ r ∷ []) false rest in
    let dashed = module_loop (b ++ b'-' ∷ []) true rest in
    let skipped = module_loop b last_dash rest in
    if is_lower r || is_digit r
    then kept
    else if r == b'-' || (r == b'_' || r == b' ')
    then (if not last_dash && ltb 0 (length b) then dashed else skipped)
    else skipped

-- `strings.TrimLeft(s, "-")`
unfoldable pub drop_dashes : Str → Str
drop_dashes [] = []
drop_dashes (c ∷ s) = let rest = drop_dashes s in if c == b'-' then rest else c ∷ s

-- `strings.Trim(s, "-")`
unfoldable pub trim_dashes : Str → Str
unfolding drop_dashes
trim_dashes s = reverse (drop_dashes (reverse (drop_dashes s)))

-- The last of some parts
last_part : List Str → Str
last_part [] = []
last_part (p ∷ []) = p
last_part (p ∷ q ∷ rest) = last_part (q ∷ rest)

-- `filepath.Base` of a path that `filepath.Clean` gave
base_name : Str → Str
unfolding last_part
base_name path = if path == lit "/" then path else last_part (split_byte path b'/')

unfoldable pub module_name : Str → Str
unfolding base_name module_loop trim_dashes
module_name name =
    let base = trim_space (to_lower (base_name (clean name))) in
    let slug = trim_dashes (module_loop [] false base) in
    if slug == [] then lit "gomyadmin-app" else slug
