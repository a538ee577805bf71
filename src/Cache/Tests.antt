-- ===== src/Cache/Tests.antt =====
-- A cache in use, and the theorems at it.
use gomyadmin.Base.{◌≡◌, refl, none, some, [], ◌∷◌, str_eq, nat_eq, str_beq}
use gomyadmin.Base.Int.{pos}
use gomyadmin.Text.{lit}
use gomyadmin.Dict.{lookup, insert, delete}
use gomyadmin.Cache.{MemoryCache, stale, new_memory, set, read, get}
use gomyadmin.Cache.Expiry.{answer}

abbrev one_item : MemoryCache
one_item = record { items = (lit "a", record { value = lit "v"; expires_at = 15 }) ∷ [] }

set_run : set (lit "a") (lit "v") (pos 5) 10 new_memory ≡ one_item
unfolding set insert
set_run = refl

get_runs : (answer (lit "a") 15 one_item ≡ some (lit "v")) × (answer (lit "a") 16 one_item ≡ none)
unfolding get lookup delete str_beq
get_runs = (refl, refl)

expired : read (lit "a") 16 one_item ≡ stale
unfolding read lookup str_beq
expired = refl
