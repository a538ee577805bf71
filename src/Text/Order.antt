-- ===== src/Text/Order.antt =====
-- `sort.Strings`: strings in the order of their bytes.
pub mod Sorted
use gomyadmin.Base.{
  Bool, true, false, ◌&&◌, ◌||◌, List, [], ◌∷◌, Str, ◌==◌, nat_eq, ltb, if◌then◌else◌,
}

-- `s < t` of Go
unfoldable pub str_ltb : Str → Str → Bool
str_ltb [] [] = false
str_ltb [] (b ∷ t) = true
str_ltb (a ∷ s) [] = false
str_ltb (a ∷ s) (b ∷ t) = ltb a b || (a == b && str_ltb s t)

insert_sorted : Str → List Str → List Str
insert_sorted s [] = s ∷ []
insert_sorted s (t ∷ rest) = if str_ltb t s then t ∷ insert_sorted s rest else s ∷ t ∷ rest

unfoldable pub sort_strings : List Str → List Str
unfolding insert_sorted str_ltb
sort_strings [] = []
sort_strings (s ∷ rest) = insert_sorted s (sort_strings rest)
