-- ===== src/Session/Cached.antt =====
-- pkg/auth/cache_session_store.go over the `Cache` interface of pkg/cache/cache.go, with `MemoryCache`
-- as one such cache.
pub mod Lifetime
mod Tests
use gomyadmin.Base.{
  ℕ, Bool, true, false, Option, none, some, List, [], ◌∷◌, ◌++◌, Str, ◌==◌, str_eq, ltb,
  if◌then◌else◌,
}
use gomyadmin.Base.Int.{ℤ}
use gomyadmin.Base.Result.{Result, ok, err}
use gomyadmin.Text.{lit}
use gomyadmin.Access.{Actor}
use gomyadmin.Session.{Session, Draw, add_duration}
use gomyadmin.Cache
use gomyadmin.Cache.{MemoryCache}

-- The errors of a cache: `ErrNotFound` and any other.
pub data CacheError : Type 0 where
  missing failed : CacheError

-- `type Cache interface`. The times are those at which a cache that keeps its own clock runs the call.
pub record Store : Type 1 where
  pub State : Type 0
  pub get : Str → ℕ → State → State × Result CacheError Str
  pub set : Str → Str → ℤ → ℕ → State → State × Result CacheError (Unit {0})
  pub delete : Str → State → State × Result CacheError (Unit {0})

abbrev pub or_missing : Option Str → Result CacheError Str
or_missing none = err missing
or_missing (some value) = ok value

-- `var _ Cache = (*MemoryCache)(nil)`
abbrev pub memory_store : Store
memory_store = record {
  State = MemoryCache;
  get = λ key now c. ((Cache.get key now c).0, or_missing (Cache.get key now c).1);
  set = λ key value ttl now c. (Cache.set key value ttl now c, ok tt);
  delete = λ key c. (Cache.remove key c, ok tt);
}

-- `json.Marshal` and `json.Unmarshal` of a `Session`.
pub record Json : Type 0 where
  pub marshal : Session → Option Str
  pub unmarshal : Str → Option Session

-- The errors of the store: `ErrSessionNotFound`, an error of the cache, of the JSON or of the random
-- source, and a store without a cache.
pub data SessionError : Type 0 where
  not_found cache_failed bad_json no_token no_cache : SessionError

-- `func (s *CacheSessionStore) key`
unfoldable pub key_of : Str → Str → Str
key_of prefix id = (if prefix == [] then lit "gomyadmin:session:" else prefix) ++ id

-- The session that `Create` makes.
unfoldable pub new_session : Actor → ℤ → Str → ℕ → Session
new_session actor ttl id now = record {
  id = id;
  actor = actor;
  expires_at = add_duration now ttl;
  created_at = now;
}

-- `present` is `s.Cache != nil`.
module _ (store : Store) (json : Json) (present : Bool) (prefix : Str) where
  open store use {State}

  -- `return session, s.Cache.Set(...)`
  abbrev pub answer_of {ℓ} :
      {A : Type ℓ} → A → State × Result CacheError (Unit {0}) → State × Result SessionError A
  answer_of a (s, err e) = (s, err cache_failed)
  answer_of a (s, ok _) = (s, ok a)

  unfoldable pub set_session : Session → ℤ → ℕ → State → State × Result SessionError Session
  set_session session ttl at s = elim (json.marshal session) [
    | none ↦ (s, err bad_json)
    | some text ↦ answer_of session (store.set (key_of prefix session.id) text ttl at s)
  ]

  -- `func (s *CacheSessionStore) Create`; the last reading of the clock is that of the cache.
  unfoldable pub create : Actor → ℤ → Draw → State → State × Result SessionError Session
  create actor ttl d s =
      let made : State × Result SessionError Session = elim d.token [
        | none ↦ (s, err no_token)
        | some id ↦ set_session (new_session actor ttl id d.now) ttl d.now_after s
      ] in
      if present then made else (s, err no_cache)

  -- `Get` after the cache has answered.
  unfoldable pub read_session :
      Str → ℕ → State × Result CacheError Str → State × Result SessionError Session
  read_session id now (s, err missing) = (s, err not_found)
  read_session id now (s, err failed) = (s, err cache_failed)
  read_session id now (s, ok text) = elim (json.unmarshal text) [
    | none ↦ (s, err bad_json)
    | some session ↦
        let deleted = store.delete (key_of prefix id) s in
        if ltb session.expires_at now then (deleted.0, err not_found) else (s, ok session)
  ]

  -- `func (s *CacheSessionStore) Get`, at the times of the cache and of the store's own check.
  unfoldable pub get : Str → ℕ → ℕ → State → State × Result SessionError Session
  get id at now s =
      if present then read_session id now (store.get (key_of prefix id) at s) else (s, err no_cache)

  -- `func (s *CacheSessionStore) Delete`
  unfoldable pub delete : Str → State → State × Result SessionError (Unit {0})
  delete id s =
      if present then answer_of tt (store.delete (key_of prefix id) s) else (s, err no_cache)
