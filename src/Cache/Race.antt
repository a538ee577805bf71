-- ===== src/Cache/Race.antt =====
-- Two calls at once (pkg/cache/cache.go): between the two steps of a `Get` another call may run.
use gomyadmin.Base.{ℕ, ◌≡◌, none, Str, str_eq, arith, str_beq_refl}
use gomyadmin.Base.Int.{ℤ}
use gomyadmin.Cache.{MemoryCache, stale, set, read, finish}
use gomyadmin.Cache.Expiry.{answer, get-remove}

-- A `Get` that has found an expired item and a `Set` of the same key that runs before the `Get` goes
-- on: the new value is deleted, and no later `Get` finds it, whatever its lifetime.
pub set_is_lost :
    (key value : Str) (ttl : ℤ) (start now later : ℕ) (c : MemoryCache)
    → read key start c ≡ stale
    → answer key later (finish key (read key start c) (set key value ttl now c)).0 ≡ none
unfolding finish
set_is_lost key value ttl start now later c h =
    rw h (ground (arith, get-remove key key later (set key value ttl now c), str_beq_refl key))
