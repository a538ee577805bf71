-- ===== src/Session.antt =====
-- pkg/auth/session.go and pkg/auth/csrf.go. A time is a number of nanoseconds; the random tokens of
-- `secureToken` and the readings of the clock are arguments.
pub mod Memory
pub mod Manager
pub mod Csrf
pub mod Cached
mod Tests
use gomyadmin.Base.{
  ℕ, ◌+◌, ◌-◌, ◌≡◌, Bool, true, false, Option, none, some, List, [], ◌∷◌, Str, ltb, if◌then◌else◌,
}
use gomyadmin.Base.Int.{ℤ, pos, negsuc}
use gomyadmin.Access.{Actor}

-- `type Session struct`
pub record Session : Type 0 where
  pub id : Str
  pub actor : Actor
  pub expires_at : ℕ
  pub created_at : ℕ

-- What a `Create` takes from outside: the token, unless the random source fails, and the times of
-- its two readings of the clock.
pub record Draw : Type 0 where
  pub token : Option Str
  pub now : ℕ
  pub now_after : ℕ

-- `t.Add(d)`
abbrev pub add_duration : ℕ → ℤ → ℕ
add_duration t (pos n) = t + n
add_duration t (negsuc n) = t - (n + 1)

-- `type SessionStore interface`, with what its callers rely on: a created session is found until it
-- expires, and a deleted one is not found.
pub record SessionStore : Type 1 where
  pub State : Type 0
  pub create : Actor → ℤ → Draw → State → State × Option Session
  pub get : Str → ℕ → State → Option Session
  pub delete : Str → State → State
  pub get-create :
      (actor : Actor) (ttl : ℤ) (d : Draw) (s : State) (session : Session) (now : ℕ)
      → (create actor ttl d s).1 ≡ some session
      → get session.id now (create actor ttl d s).0
        ≡ (if ltb session.expires_at now then none else some session)
  pub actor-create :
      (actor : Actor) (ttl : ℤ) (d : Draw) (s : State) (session : Session)
      → (create actor ttl d s).1 ≡ some session
      → session.actor ≡ actor
  pub get-delete : (id : Str) (now : ℕ) (s : State) → get id now (delete id s) ≡ none
