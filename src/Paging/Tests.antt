-- ===== src/Paging/Tests.antt =====
-- Pages read from queries, and the theorems at concrete queries.
use gomyadmin.Base.{◌-◌, ◌*◌, ◌≤◌, ◌<◌, ◌≡◌, refl, [], ◌∷◌, str_beq, arith}
use gomyadmin.Base.Int.{pos, max_int, wrap_nat}
use gomyadmin.Text.{lit}
use gomyadmin.Text.Number.{atoi}
use gomyadmin.Dict.{lookup}
use gomyadmin.Paging.{Page, Values, parse, get, parse_positive, first}

abbrev third_page : Values
third_page = (lit "page", lit "3" ∷ []) ∷ (lit "limit", lit "500" ∷ []) ∷ []

abbrev far_page : Values
far_page = (lit "page", lit "200000000000000000" ∷ []) ∷ (lit "limit", lit "60" ∷ []) ∷ []

third_page_run :
    parse third_page ≡ record { page = 3; per_page = 100; offset = pos 200; limit = 100 }
unfolding parse parse_positive first get lookup str_beq atoi wrap_nat
third_page_run = refl

fits : ((parse third_page).page - 1) * (parse third_page).per_page ≤ max_int
unfolding parse parse_positive first get lookup str_beq atoi
fits = omega arith

too_far : max_int < ((parse far_page).page - 1) * (parse far_page).per_page
unfolding parse parse_positive first get lookup str_beq atoi
too_far = omega arith

not_too_far : ((parse far_page).page - 1) * (parse far_page).per_page < 18446744073709551616
unfolding parse parse_positive first get lookup str_beq atoi
not_too_far = omega arith

abbrev page_of_25 : Page
page_of_25 = record { page = 1; per_page = 25; offset = pos 0; limit = 25 }
