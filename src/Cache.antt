-- ===== src/Cache.antt =====
-- pkg/cache/cache.go. A time is a number of nanoseconds, and 0 is the zero `time.Time`.
pub mod Expiry
pub mod Race
mod Tests
use gomyadmin.Base.{
  ℕ, ◌+◌, Bool, true, false, not, ◌&&◌, Option, none, some, List, [], ◌∷◌, Str, ◌==◌, nat_eq, ltb,
  if◌then◌else◌,
}
use gomyadmin.Base.Int.{ℤ, pos, negsuc}
use gomyadmin.Dict.{Dict, lookup, insert, delete}

-- `type item struct`
pub record Item : Type 0 where
  pub value : Str
  pub expires_at : ℕ

-- `type MemoryCache struct`, less its lock
pub record MemoryCache : Type 0 where
  pub items : Dict Item

abbrev pub new_memory : MemoryCache
new_memory = record { items = [] }

-- `expiresAt` of `Set` at the time `now`
abbrev pub expiry : ℤ → ℕ → ℕ
expiry (pos n) now = if ltb 0 n then now + n else 0
expiry (negsuc _) now = 0

-- `func (c *MemoryCache) Set`
unfoldable pub set : Str → Str → ℤ → ℕ → MemoryCache → MemoryCache
set key value ttl now c = record c {
  items = insert key (record { value = value; expires_at = expiry ttl now }) c.items;
}

-- `func (c *MemoryCache) Delete`
unfoldable pub remove : Str → MemoryCache → MemoryCache
remove key c = record c { items = delete key c.items }

-- `!it.expiresAt.IsZero() && time.Now().UTC().After(it.expiresAt)`
abbrev pub is_expired : Item → ℕ → Bool
is_expired it now = not (it.expires_at == 0) && ltb it.expires_at now

-- What `Get` has seen when it gives back the read lock.
pub data Reading : Type 0 where
  missing stale : Reading
  found : Str → Reading

unfoldable pub read : Str → ℕ → MemoryCache → Reading
read key now c = elim (lookup key c.items) [
  | none ↦ missing
  | some it ↦ if is_expired it now then stale else found it.value
]

-- The rest of `Get`, which takes the write lock in `Delete`; `none` is `ErrNotFound`.
unfoldable pub finish : Str → Reading → MemoryCache → MemoryCache × Option Str
unfolding remove
finish key missing c = (c, none)
finish key stale c = (remove key c, none)
finish key (found value) c = (c, some value)

-- `func (c *MemoryCache) Get` with no other call between its two steps
unfoldable pub get : Str → ℕ → MemoryCache → MemoryCache × Option Str
unfolding finish read
get key now c = finish key (read key now c) c
