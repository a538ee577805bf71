-- ===== src/RateLimit/Recovery.antt =====
-- Nobody stays locked out by pkg/auth/rate_limit.go.
use gomyadmin.Base.{
  ℕ, ◌+◌, ◌≤◌, ◌<◌, ◌≡◌, refl, sym, subst, ◌∙◌, Bool, true, List, [], ◌∷◌, ◌++◌, Str, ◌==◌, str_eq,
  arith, leb, keep, length, All, All-append, Bool-cases, inl, inr,
}
use gomyadmin.Dict.{insert}
use gomyadmin.RateLimit.{RateLimiter, is_recent, attempts_of, allow}
use gomyadmin.RateLimit.Window.{
  IsOrdered, attempts_of-insert, nothing_yet, window-allow, limit-allow, past_later,
}

-- The limiter after a row of calls, each with its key and its time, and the time of the last one.
unfoldable pub after : RateLimiter → List (Str × ℕ) → RateLimiter
after l [] = l
after l ((key, now) ∷ calls) = after (allow key now l).0 calls

abbrev pub last_time : ℕ → List (Str × ℕ) → ℕ
last_time now [] = now
last_time now ((_, later) ∷ calls) = last_time later calls

keep-All : (p : ℕ → Bool) (t : ℕ) (xs : List ℕ) → All (λ a. a ≤ t) xs → All (λ a. a ≤ t) (keep p xs)
unfolding keep
keep-All p t [] h = tt
keep-All p t (x ∷ xs) (h, hs) = elim (Bool-cases (p x)) [
  | inl b ↦ rw b (h, keep-All p t xs hs)
  | inr b ↦ rw b (keep-All p t xs hs)
]

insert_past :
    (key other : Str) (now : ℕ) (ts : List ℕ) (l : RateLimiter)
    → All (λ a. a ≤ now) (attempts_of key l)
    → All (λ a. a ≤ now) ts
    → All (λ a. a ≤ now) (attempts_of key (record l { attempts = insert other ts l.attempts }))
insert_past key other now ts l h h' = elim (Bool-cases (other == key)) [
  | inl b ↦ subst (All (λ a. a ≤ now)) (sym (attempts_of-insert key other ts l ∙ rw b refl)) h'
  | inr b ↦ subst (All (λ a. a ≤ now)) (sym (attempts_of-insert key other ts l ∙ rw b refl)) h
]

-- No recorded attempt of any key is later than this time.
abbrev IsPast : ℕ → RateLimiter → Type 0
IsPast now l = (key : Str) → All (λ a. a ≤ now) (attempts_of key l)

allow-IsPast :
    (other : Str) (now : ℕ) (l : RateLimiter) → IsPast now l → IsPast now (allow other now l).0
unfolding allow
allow-IsPast other now l h key =
    let kept = keep (is_recent l.window now) (attempts_of other l) in
    let kept_past = keep-All (is_recent l.window now) now (attempts_of other l) (h other) in
    elim (Bool-cases (leb l.limit (length kept))) [
      | inl full ↦ rw full (insert_past key other now kept l (h key) kept_past)
      | inr free ↦ rw free (
          insert_past key other now (kept ++ now ∷ []) l (h key)
            (All-append (λ a. a ≤ now) kept (now ∷ []) kept_past (omega arith, tt)))
    ]

after-IsPast :
    (start : ℕ) (l : RateLimiter) (calls : List (Str × ℕ))
    → IsPast start l
    → IsOrdered start calls
    → IsPast (last_time start calls) (after l calls)
unfolding after
after-IsPast start l [] h o = h
after-IsPast start l ((other, now) ∷ calls) h (le, o) =
    after-IsPast now (allow other now l).0 calls
      (allow-IsPast other now l (λ key. past_later (attempts_of key l) le (h key))) o

window-after : (l : RateLimiter) (calls : List (Str × ℕ)) → (after l calls).window ≡ l.window
unfolding after
window-after l [] = refl
window-after l ((other, now) ∷ calls) =
    window-after (allow other now l).0 calls ∙ window-allow other now l

limit-after : (l : RateLimiter) (calls : List (Str × ℕ)) → (after l calls).limit ≡ l.limit
unfolding after
limit-after l [] = refl
limit-after l ((other, now) ∷ calls) =
    limit-after (allow other now l).0 calls ∙ limit-allow other now l

keep_none :
    (w now last : ℕ) (xs : List ℕ)
    → last + w ≤ now
    → All (λ a. a ≤ last) xs
    → keep (is_recent w now) xs ≡ []
unfolding keep
keep_none w now last [] h k = refl
keep_none w now last (x ∷ xs) h (k, ks) = ground (arith, keep_none w now last xs h ks)

allow_free :
    (key : Str) (now last : ℕ) (l : RateLimiter)
    → 0 < l.limit
    → last + l.window ≤ now
    → All (λ a. a ≤ last) (attempts_of key l)
    → (allow key now l).1 ≡ true
unfolding allow
allow_free key now last l h w past =
    let none_kept = keep_none l.window now last (attempts_of key l) w past in
    rw none_kept (ground arith)

-- From a limiter with no attempts and a positive limit, whatever the calls in the order of time have
-- been, each key is allowed again once a window has passed since the last call.
pub allow-after :
    (key : Str) (l : RateLimiter) (start now : ℕ) (calls : List (Str × ℕ))
    → l.attempts ≡ []
    → 0 < l.limit
    → IsOrdered start calls
    → last_time start calls + l.window ≤ now
    → (allow key now (after l calls)).1 ≡ true
allow-after key l start now calls e h o w =
    allow_free key now (last_time start calls) (after l calls)
      (subst (λ n. 0 < n) (sym (limit-after l calls)) h)
      (subst (λ n. last_time start calls + n ≤ now) (sym (window-after l calls)) w)
      (after-IsPast start l calls (λ k. subst (All (λ a. a ≤ start)) (sym (nothing_yet k l e)) tt) o
        key)
