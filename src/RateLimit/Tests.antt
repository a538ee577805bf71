-- ===== src/RateLimit/Tests.antt =====
-- A limiter in use, and the bound at a row of calls.
use gomyadmin.Base.{ℕ, ◌≤◌, ◌≡◌, true, refl, List, [], ◌∷◌, Str, str_beq, keep, length, arith}
use gomyadmin.Base.Int.{pos}
use gomyadmin.Text.{lit}
use gomyadmin.Dict.{lookup, insert}
use gomyadmin.RateLimit.{RateLimiter, new_rate_limiter, allow, attempts_of}
use gomyadmin.RateLimit.Recovery.{after, allow-after}
use gomyadmin.RateLimit.Window.{accepted_of, is_within, accepted_of-le-limit}

abbrev two_in_ten : RateLimiter
two_in_ten = record { limit = 2; window = 10; attempts = [] }

abbrev calls : List (Str × ℕ)
calls =
    (lit "a", 1) ∷ (lit "a", 2) ∷ (lit "b", 3) ∷ (lit "a", 4) ∷ (lit "a", 11) ∷ (lit "a", 12) ∷ []

new_run :
    new_rate_limiter (pos 0) (pos 0) ≡ record { limit = 5; window = 60000000000; attempts = [] }
unfolding new_rate_limiter
new_run = refl

accepted_run : accepted_of (lit "a") two_in_ten [] calls ≡ 1 ∷ 2 ∷ 11 ∷ 12 ∷ []
unfolding accepted_of allow attempts_of keep lookup insert str_beq
accepted_run = refl

accepted_of-le-limit_example :
    length (keep (is_within 10 12) (accepted_of (lit "a") two_in_ten [] calls)) ≤ 2
accepted_of-le-limit_example =
    accepted_of-le-limit (lit "a") two_in_ten 0 calls refl (omega arith) 12

-- Two attempts at 1 and 2 keep a third one out until 12.
allow-after_example :
    (allow (lit "a") 12 (after two_in_ten ((lit "a", 1) ∷ (lit "a", 2) ∷ []))).1 ≡ true
allow-after_example =
    allow-after (lit "a") two_in_ten 0 12 ((lit "a", 1) ∷ (lit "a", 2) ∷ []) refl (omega arith)
      (omega arith, (omega arith, tt)) (omega arith)
