-- ===== src/RateLimit.antt =====
-- pkg/auth/rate_limit.go. Times and durations are numbers of nanoseconds.
pub mod Window
pub mod Recovery
mod Tests
use gomyadmin.Base.{
  ℕ, ◌+◌, ◌≡◌, Bool, true, false, Option, none, some, List, [], ◌∷◌, ◌++◌, Str, ltb, leb,
  if◌then◌else◌, keep, length,
}
use gomyadmin.Base.Int.{ℤ, pos, negsuc}
use gomyadmin.Text.{split_byte, trim_space}
use gomyadmin.Base.{◌==◌, str_eq}
use gomyadmin.Dict.{Dict, lookup, insert}

-- `type RateLimiter struct`, less its mutex, under which each call is one step.
pub record RateLimiter : Type 0 where
  pub limit : ℕ
  pub window : ℕ
  pub attempts : Dict (List ℕ)

abbrev or_default : ℤ → ℕ → ℕ
or_default (pos n) d = if ltb 0 n then n else d
or_default (negsuc _) d = d

-- `func NewRateLimiter`; the default window is a minute.
unfoldable pub new_rate_limiter : ℤ → ℤ → RateLimiter
new_rate_limiter limit window = record {
  limit = or_default limit 5;
  window = or_default window 60000000000;
  attempts = [];
}

-- `attempt.After(now.Add(-l.window))`, with the window on the other side.
abbrev pub is_recent : ℕ → ℕ → ℕ → Bool
is_recent window now attempt = ltb now (attempt + window)

-- `l.attempts[key]`, which is empty for a key that is not there
unfoldable pub attempts_of : Str → RateLimiter → List ℕ
attempts_of key l = elim (lookup key l.attempts) [ none ↦ [] | some ts ↦ ts ]

-- `func (l *RateLimiter) Allow` at the time `now`
unfoldable pub allow : Str → ℕ → RateLimiter → RateLimiter × Bool
allow key now l =
    let kept = keep (is_recent l.window now) (attempts_of key l) in
    if leb l.limit (length kept)
    then (record l { attempts = insert key kept l.attempts }, false)
    else (record l { attempts = insert key (kept ++ now ∷ []) l.attempts }, true)

-- The first address of the header X-Forwarded-For, if it is not empty.
abbrev forwarded_host : Str → Str
forwarded_host forwarded = elim (split_byte forwarded b',') [ [] ↦ [] | part ∷ _ ↦ trim_space part ]

-- `func clientIP`, with the host that `net.SplitHostPort` finds.
unfoldable pub client_ip : (Str → Option Str) → Str → Str → Str
client_ip split_host_port forwarded remote_addr =
    let host : Str = elim (split_host_port remote_addr) [ none ↦ remote_addr | some h ↦ h ] in
    if forwarded == []
    then host
    else if forwarded_host forwarded == []
    then host
    else forwarded_host forwarded
