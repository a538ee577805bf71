-- ===== src/Session/Cached/Lifetime.antt =====
-- How long a session of pkg/auth/cache_session_store.go lives.
use gomyadmin.Base.{
  ℕ, arith, ◌+◌, ◌≡◌, refl, sym, subst, ap, ◌∙◌, ◌≤◌, inl, inr, Bool, true, false, none, some, Str,
  not, str_beq_refl, ltb, if◌then◌else◌, Bool-cases, Option-cases,
}
use gomyadmin.Base.Int.{ℤ, pos, negsuc}
use gomyadmin.Base.Result.{Result, ok, err, err≢ok, ok-injective}
use gomyadmin.Access.{Actor}
use gomyadmin.Cache
use gomyadmin.Cache.{Item, MemoryCache, expiry, is_expired}
use gomyadmin.Cache.Expiry.{get-remove}
use gomyadmin.Dict.{lookup, lookup-insert}
use gomyadmin.Session.{Session, Draw}
use gomyadmin.Session.Cached.{
  CacheError, missing, failed, or_missing, memory_store, Store, Json, not_found, key_of,
  new_session, set_session, answer_of, create, read_session, get, delete,
}

-- A value that was set with this time to live at the time `set_at` is live.
abbrev pub is_live : ℤ → ℕ → ℕ → Bool
is_live (pos n) set_at now =
    if ltb 0 n then (if ltb (set_at + n) now then false else true) else true
is_live (negsuc n) set_at now = true

-- What the store relies on of its cache: a value that was set is found while it is live, and a value
-- that was deleted is not found.
pub record Laws (store : Store) : Type 0 where
  pub get-set :
      (key value : Str) (ttl : ℤ) (set_at now : ℕ) (s t : store.State)
      → store.set key value ttl set_at s ≡ (t, ok tt)
      → is_live ttl set_at now ≡ true
      → store.get key now t ≡ (t, ok value)
  pub get-set-past :
      (key value : Str) (ttl : ℤ) (set_at now : ℕ) (s t : store.State)
      → store.set key value ttl set_at s ≡ (t, ok tt)
      → is_live ttl set_at now ≡ false
      → (store.get key now t).1 ≡ err missing
  pub get-delete :
      (key : Str) (now : ℕ) (s t : store.State)
      → store.delete key s ≡ (t, ok tt)
      → (store.get key now t).1 ≡ err missing

live_lem :
    (value : Str) (ttl : ℤ) (set_at now : ℕ)
    → is_expired (record { value = value; expires_at = expiry ttl set_at }) now
      ≡ not (is_live ttl set_at now)
live_lem value (pos n) set_at now = ground arith
live_lem value (negsuc n) set_at now = refl

memory_lookup :
    (key value : Str) (ttl : ℤ) (set_at : ℕ) (s : MemoryCache)
    → lookup key (Cache.set key value ttl set_at s).items
      ≡ some (record { value = value; expires_at = expiry ttl set_at })
unfolding Cache.set
memory_lookup key value ttl set_at s =
    lookup-insert key key (record { value = value; expires_at = expiry ttl set_at }) s.items
    ∙ rw (str_beq_refl key) refl

memory-get-found :
    (key : Str) (it : Item) (now : ℕ) (c : MemoryCache)
    → lookup key c.items ≡ some it
    → Cache.get key now c
      ≡ (if is_expired it now then (Cache.remove key c, none) else (c, some it.value))
unfolding Cache.get
memory-get-found key it now c e = ground (arith, e)

memory-get-set :
    (key value : Str) (ttl : ℤ) (set_at now : ℕ) (s : MemoryCache)
    → Cache.get key now (Cache.set key value ttl set_at s) ≡ (
        if is_live ttl set_at now
        then (Cache.set key value ttl set_at s, some value)
        else (Cache.remove key (Cache.set key value ttl set_at s), none))
memory-get-set key value ttl set_at now s =
    memory-get-found key (record { value = value; expires_at = expiry ttl set_at }) now
      (Cache.set key value ttl set_at s) (memory_lookup key value ttl set_at s)
    ∙ elim (Bool-cases (is_live ttl set_at now)) [
      | inl b ↦ rw (live_lem value ttl set_at now, b) refl
      | inr b ↦ rw (live_lem value ttl set_at now, b) refl
    ]

-- An entry that the cache has given up is that of an expired session.
life_lem :
    (actor : Actor) (ttl : ℤ) (id : Str) (now0 set_at at now : ℕ)
    → now0 ≤ set_at
    → at ≤ now
    → is_live ttl set_at at ≡ false
    → ltb (new_session actor ttl id now0).expires_at now ≡ true
unfolding new_session
life_lem actor (pos n) id now0 set_at at now a b h = ground arith
life_lem actor (negsuc n) id now0 set_at at now a b h = ground arith

module _ (store : Store) (json : Json) (prefix : Str) where
  open store use {State}

  set_session-some :
      (session : Session) (ttl : ℤ) (at : ℕ) (s : State) (value : Str)
      → json.marshal session ≡ some value
      → set_session store json true prefix session ttl at s
        ≡ answer_of store json true prefix session
            (store.set (key_of prefix session.id) value ttl at s)
  unfolding set_session
  set_session-some session ttl at s value m = rw (set_session, m) refl

  answer_ok :
      {A : Type 0} (a b : A) (r : State × Result CacheError (Unit {0})) (t : State)
      → answer_of store json true prefix a r ≡ (t, ok b)
      → (r ≡ (t, ok tt)) × (a ≡ b)
  answer_ok a b (s, err e) t h = absurd (err≢ok (ap (λ z. z.1) h))
  answer_ok a b (s, ok tt) t h = (ap (λ z. (z.0, ok tt)) h, ok-injective (ap (λ z. z.1) h))

  set_session_ok :
      (session session' : Session) (ttl : ℤ) (at : ℕ) (s t : State)
      → set_session store json true prefix session ttl at s ≡ (t, ok session')
      → (value : Str) × (session ≡ session')
        × (json.marshal session ≡ some value)
        × (store.set (key_of prefix session.id) value ttl at s ≡ (t, ok tt))
  unfolding set_session
  set_session_ok session session' ttl at s t h = elim (Option-cases (json.marshal session)) [
    | inl n ↦ ground arith
    | inr (value, m) ↦
        let (done, same) =
          answer_ok session session' _ t (sym (set_session-some session ttl at s value m) ∙ h) in
        (value, same, m, done)
  ]

  create_sets :
      (actor : Actor) (ttl : ℤ) (d : Draw) (s t : State) (session : Session)
      → create store json true prefix actor ttl d s ≡ (t, ok session)
      → (value : Str) × (id : Str) × (new_session actor ttl id d.now ≡ session)
        × (json.marshal session ≡ some value)
        × (store.set (key_of prefix session.id) value ttl d.now_after s ≡ (t, ok tt))
  unfolding create
  create_sets actor ttl d s t session h = elim (Option-cases d.token) [
    | inl n ↦ ground arith
    | inr (id, e) ↦
        let (value, same, m, done) =
          set_session_ok (new_session actor ttl id d.now) session ttl d.now_after s t
            (sym (rw (create, e) refl) ∙ h) in
        (
          value,
          id,
          same,
          ap json.marshal (sym same) ∙ m,
          (ap (λ x. store.set (key_of prefix x.id) value ttl d.now_after s) (sym same) ∙ done),
        )
  ]

  read_session-missing :
      (id : Str) (now : ℕ) (r : State × Result CacheError Str)
      → r.1 ≡ err missing
      → (read_session store json true prefix id now r).1 ≡ err not_found
  unfolding read_session
  read_session-missing id now (s, err missing) h = refl
  read_session-missing id now (s, err failed) h = cc
  read_session-missing id now (s, ok text) h = cc

  read_session-ok :
      (id : Str) (now : ℕ) (s : State) (text : Str) (session : Session)
      → json.unmarshal text ≡ some session
      → (read_session store json true prefix id now (s, ok text)).1
        ≡ (if ltb session.expires_at now then err not_found else ok session)
  unfolding read_session
  read_session-ok id now s text session u = elim (Bool-cases (ltb session.expires_at now)) [
    | inl b ↦ rw (read_session, u, b) refl
    | inr b ↦ rw (read_session, u, b) refl
  ]

  -- A session of `Create` is what `Get` finds until the session expires, and is not found after that:
  -- the life of the entry in the cache is never shorter than that of the session.
  pub get-create :
      (laws : Laws store) (actor : Actor) (ttl : ℤ) (d : Draw) (s t : State) (session : Session)
      (at now : ℕ)
      → ((text : Str) → json.marshal session ≡ some text → json.unmarshal text ≡ some session)
      → d.now ≤ d.now_after
      → at ≤ now
      → create store json true prefix actor ttl d s ≡ (t, ok session)
      → (get store json true prefix session.id at now t).1
        ≡ (if ltb session.expires_at now then err not_found else ok session)
  unfolding get
  get-create laws actor ttl d s t session at now round_trip clock clock' h =
      let (value, id, same, marshalled, set) = create_sets actor ttl d s t session h in
      let key = key_of prefix session.id in
      elim (Bool-cases (is_live ttl d.now_after at)) [
        | inl live ↦
            ap (λ r. (read_session store json true prefix session.id now r).1)
              (laws.get-set key value ttl d.now_after at s t set live)
            ∙ read_session-ok session.id now t value session (round_trip value marshalled)
        | inr over ↦
            let gone =
              read_session-missing session.id now (store.get key at t)
                (laws.get-set-past key value ttl d.now_after at s t set over) in
            let expired : ltb session.expires_at now ≡ true =
              subst (λ x. ltb x.expires_at now ≡ true) same
                (life_lem actor ttl id d.now d.now_after at now clock clock' over) in
            rw expired gone
      ]

  delete_ok :
      (id : Str) (s t : State)
      → delete store json true prefix id s ≡ (t, ok tt)
      → store.delete (key_of prefix id) s ≡ (t, ok tt)
  unfolding delete
  delete_ok id s t h = (answer_ok tt tt (store.delete (key_of prefix id) s) t h).0

  -- After a `Delete` without an error there is no session with this id.
  pub get-delete :
      (laws : Laws store) (id : Str) (s t : State) (at now : ℕ)
      → delete store json true prefix id s ≡ (t, ok tt)
      → (get store json true prefix id at now t).1 ≡ err not_found
  unfolding get
  get-delete laws id s t at now h =
      read_session-missing id now (store.get (key_of prefix id) at t)
        (laws.get-delete (key_of prefix id) at s t (delete_ok id s t h))

memory-get-live :
    (key value : Str) (ttl : ℤ) (set_at now : ℕ) (s : MemoryCache)
    → is_live ttl set_at now ≡ true
    → memory_store.get key now (Cache.set key value ttl set_at s)
      ≡ (Cache.set key value ttl set_at s, ok value)
memory-get-live key value ttl set_at now s live =
    ap (λ z. (z.0, or_missing z.1)) (memory-get-set key value ttl set_at now s) ∙ rw live refl

memory-get-past :
    (key value : Str) (ttl : ℤ) (set_at now : ℕ) (s : MemoryCache)
    → is_live ttl set_at now ≡ false
    → (Cache.get key now (Cache.set key value ttl set_at s)).1 ≡ none
memory-get-past key value ttl set_at now s past =
    ap (λ z. z.1) (memory-get-set key value ttl set_at now s) ∙ rw past refl

memory-get-remove :
    (key : Str) (now : ℕ) (s : MemoryCache) → (Cache.get key now (Cache.remove key s)).1 ≡ none
memory-get-remove key now s = get-remove key key now s ∙ rw (str_beq_refl key) refl

-- The cache of this repository has the laws.
pub memory_laws : Laws memory_store
unfolding Cache.get
memory_laws = record {
  get-set = λ key value ttl set_at now s t h live.
      subst (λ u. memory_store.get key now u ≡ (u, ok value)) (ap (λ z. z.0) h)
        (memory-get-live key value ttl set_at now s live);
  get-set-past = λ key value ttl set_at now s t h past.
      subst (λ u. (memory_store.get key now u).1 ≡ err missing) (ap (λ z. z.0) h)
        (ap or_missing (memory-get-past key value ttl set_at now s past));
  get-delete = λ key now s t h.
      subst (λ u. (memory_store.get key now u).1 ≡ err missing) (ap (λ z. z.0) h)
        (ap or_missing (memory-get-remove key now s));
}
