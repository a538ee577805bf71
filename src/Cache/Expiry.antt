-- ===== src/Cache/Expiry.antt =====
-- A value is there until its time is over (pkg/cache/cache.go).
use gomyadmin.Base.{
  ℕ, ◌≤◌, ◌≡◌, not, ◌&&◌, Option, none, some, Str, ◌==◌, nat_eq, str_eq, arith, ltb, if◌then◌else◌,
  str_beq_iff, Option-cases, inl, inr,
}
use gomyadmin.Base.Int.{ℤ}
use gomyadmin.Dict.{lookup, lookup-insert, lookup-delete}
use gomyadmin.Cache.{MemoryCache, expiry, set, remove, get}

-- What a caller of `Get` learns.
abbrev pub answer : Str → ℕ → MemoryCache → Option Str
answer key now c = (get key now c).1

-- After `Set` the value is found until the lifetime, if it is positive, has passed, and always if
-- it is not positive; what is found under another key does not change.
pub get-set :
    (key other value : Str) (ttl : ℤ) (now later : ℕ) (c : MemoryCache)
    → answer other later (set key value ttl now c) ≡ (
        if key == other
        then (if not (expiry ttl now == 0) && ltb (expiry ttl now) later then none else some value)
        else answer other later c)
unfolding get set
get-set key other value ttl now later c =
    ground (
      arith,
      lookup-insert key other (record { value = value; expires_at = expiry ttl now }) c.items,
    )

-- After `Delete` the key is not found, and what is found under another key does not change.
pub get-remove :
    (key other : Str) (later : ℕ) (c : MemoryCache)
    → answer other later (remove key c) ≡ (if key == other then none else answer other later c)
unfolding get remove
get-remove key other later c = ground (arith, lookup-delete key other c.items)

-- A `Get`, which may drop an item, changes no answer from its time on.
pub get-get :
    (key other : Str) (now later : ℕ) (c : MemoryCache)
    → now ≤ later
    → answer other later (get key now c).0 ≡ answer other later c
unfolding get
get-get key other now later c h = elim (Option-cases (lookup key c.items)) [
  | inl e ↦ ground arith
  | inr (it, e) ↦ ground (arith, lookup-delete key other c.items, str_beq_iff key other)
]
