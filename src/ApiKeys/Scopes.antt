-- ===== src/ApiKeys/Scopes.antt =====
-- What the handlers of pkg/server/handler_api_keys.go let an actor do by a key.
use gomyadmin.Base.{
  ℕ, arith, ◌≡◌, ◌≢◌, refl, sym, ap, ◌∙◌, ◌⊎◌, inl, inr, Bool, true, false, Option, none, some,
  List, [], ◌∷◌, ◌++◌, Str, str_beq-false, ◌==◌, str_eq, if◌then◌else◌, Bool-cases, Option-cases,
}
use gomyadmin.Base.Int.{ℤ}
use gomyadmin.Base.Result.{Result, ok, err, Result-cases}
use gomyadmin.Text.{lit}
use gomyadmin.Access.{Actor}
use gomyadmin.ApiKeys.{
  ApiKey, CreateInput, KeyRow, KeyTable, KeyError, Draw, with_permissions, raw_key, key_of_row,
  new_row, scopes_of, create, authenticate, expiry,
}
use gomyadmin.ApiKeys.Keys.{
  Laws, IsHexDraw, is_past, is_refused_lem, create_inserts, authenticate-create, authenticate_sound,
}
use gomyadmin.ApiKeys.Handlers.{
  KeyBody, failure, created, KeyEvent, Entry, entered, refused, by_session, entry_of, raw_key_of,
  actor_middleware, finish_create, handle_create, parse_optional_duration,
}

list_cases {ℓ} : {A : Type ℓ} (l : List A) → (l ≡ []) ⊎ ((a : A) × (rest : List A) × (l ≡ a ∷ rest))
list_cases [] = inl refl
list_cases (a ∷ rest) = inr (a, rest, refl)

by_session≢entered : {actor : Actor} → by_session ≢ entered actor
by_session≢entered h = cc

-- By a key there is an actor or a refusal.
keyed_entry :
    (enabled : Bool) (r : Result KeyError (Option (Actor × ApiKey))) (e : Entry)
    → e ≡ (if enabled then entry_of r else refused 401 (lit "UNAUTHENTICATED"))
    → (actor : Actor) → e ≡ entered actor
    → (key : ApiKey) × (r ≡ ok (some (actor, key)))
keyed_entry false r e h actor h' = cc
keyed_entry true (err x) e h actor h' = cc
keyed_entry true (ok none) e h actor h' = cc
keyed_entry true (ok (some (a, k))) e h actor h' = (k, cc)

failure≢created : {n : ℕ} {c : Str} {key : ApiKey} {raw : Str} → failure n c ≢ created key raw
failure≢created h = cc

created-injective :
    {key key' : ApiKey} {raw raw' : Str}
    → created key raw ≡ created key' raw'
    → (key ≡ key') × (raw ≡ raw')
created-injective h = (cc, cc)

module _ (table : KeyTable) (hash : Str → Str) where
  open table use {State, touch}

  finish_create-err :
      (input : CreateInput) (d : Draw) (s : State) (e : KeyError)
      → (create table hash input d s).1 ≡ err e
      → (finish_create table hash input d s).1 ≡ failure 400 (lit "CREATE_FAILED")
  unfolding finish_create
  finish_create-err input d s e n = rw (finish_create, n) refl

  finish_create-ok :
      (input : CreateInput) (d : Draw) (s : State) (key : ApiKey) (raw : Str)
      → (create table hash input d s).1 ≡ ok (key, raw)
      → ((finish_create table hash input d s).0 ≡ (create table hash input d s).0)
        × ((finish_create table hash input d s).1 ≡ created key raw)
  unfolding finish_create
  finish_create-ok input d s key raw n = (rw (finish_create, n) refl, rw (finish_create, n) refl)

  finish_create_made :
      (input : CreateInput) (d : Draw) (s : State) (key : ApiKey) (raw : Str)
      → (finish_create table hash input d s).1 ≡ created key raw
      → create table hash input d s ≡ ((finish_create table hash input d s).0, ok (key, raw))
  finish_create_made input d s key raw h = elim (Result-cases (create table hash input d s).1) [
    | inl (e, n) ↦ absurd (failure≢created (sym (finish_create-err input d s e n) ∙ h))
    | inr ((key', raw'), n) ↦
        let (state, reply) = finish_create-ok input d s key' raw' n in
        let (same_key, same_raw) = created-injective (sym reply ∙ h) in
        let result : (create table hash input d s).1 ≡ ok (key, raw) =
          n ∙ ap (λ k. ok (k, raw')) same_key ∙ ap (λ r. ok (key, r)) same_raw in
        (λ i. (sym state i, result i))
  ]

raw_key≢nil : (d : Draw) → raw_key d ≢ []
unfolding raw_key
raw_key≢nil d h = cc

module _ (table : KeyTable) (hash : Str → Str) where
  open table use {State, by_prefix}

  actor_middleware-entered :
      (to_lower : Str → Str) (header authorization raw : Str) (now now' : ℕ) (t u : State)
      (actor : Actor) (key : ApiKey)
      → raw_key_of to_lower header authorization ≡ raw
      → raw ≢ []
      → authenticate table hash raw now now' t ≡ (u, ok (some (actor, key)))
      → actor_middleware table hash true to_lower header authorization now now' t
        ≡ (u, entered actor)
  unfolding actor_middleware
  actor_middleware-entered to_lower header authorization raw now now' t u actor key same there h =
      rw (actor_middleware, same, str_beq-false raw [] there, h) refl

  middleware_left :
      (enabled : Bool) (to_lower : Str → Str) (header authorization : Str) (now now' : ℕ)
      (s : State)
      → (raw_key_of to_lower header authorization == []) ≡ true
      → actor_middleware table hash enabled to_lower header authorization now now' s
        ≡ (s, by_session)
  unfolding actor_middleware
  middleware_left enabled to_lower header authorization now now' s e = rw (actor_middleware, e) refl

  middleware_keyed :
      (enabled : Bool) (to_lower : Str → Str) (header authorization : Str) (now now' : ℕ)
      (s : State)
      → (raw_key_of to_lower header authorization == []) ≡ false
      → (actor_middleware table hash enabled to_lower header authorization now now' s).1 ≡ (
          if enabled
          then entry_of
              (authenticate table hash (raw_key_of to_lower header authorization) now now' s).1
          else refused 401 (lit "UNAUTHENTICATED"))
  unfolding actor_middleware
  middleware_keyed true to_lower header authorization now now' s e = rw (actor_middleware, e) refl
  middleware_keyed false to_lower header authorization now now' s e = rw (actor_middleware, e) refl

  -- An actor that the middleware lets in by a key is that of a row with the hash of the key, which is
  -- neither revoked nor expired at this time.
  pub actor_middleware_sound :
      (enabled : Bool) (to_lower : Str → Str) (header authorization : Str) (now now' : ℕ)
      (s : State) (actor : Actor)
      → (actor_middleware table hash enabled to_lower header authorization now now' s).1
        ≡ entered actor
      → (prefix : Str) × (row : KeyRow) × (by_prefix prefix s ≡ some (some row))
        × (row.secret_hash ≡ hash (raw_key_of to_lower header authorization))
        × (row.revoked_at ≡ none)
        × (is_past row.expires_at now ≡ false)
        × (actor ≡ row.actor)
  actor_middleware_sound enabled to_lower header authorization now now' s actor h =
      let raw = raw_key_of to_lower header authorization in
      elim (Bool-cases (raw == [])) [
        | inl e ↦
            let left = middleware_left enabled to_lower header authorization now now' s e in
            absurd (by_session≢entered (sym (ap (λ z. z.1) left) ∙ h))
        | inr e ↦
            let (key, found) =
              keyed_entry enabled (authenticate table hash raw now now' s).1 _
                (middleware_keyed enabled to_lower header authorization now now' s e) actor h in
            let (prefix, row, _, by, hashed, fresh, same, _) =
              authenticate_sound table hash raw now now' s actor key found in
            let (alive, not_past) = is_refused_lem row now fresh in
            (prefix, row, by, hashed, alive, not_past, same)
      ]

module _ (table : KeyTable) (hash : Str → Str) (parse_duration : Str → Option ℤ) where
  open table use {State, touch}

  abbrev input_of : Actor → KeyBody → ℤ → CreateInput
  input_of actor body expires_in = record {
    name = body.name;
    actor = actor;
    scopes = body.scopes;
    expires_in = expires_in;
  }

  handle_create-none :
      (actor : Actor) (body : KeyBody) (d : Draw) (s : State)
      → parse_optional_duration parse_duration body.expires_in ≡ none
      → (handle_create table hash true parse_duration actor (some body) d s).1
        ≡ failure 400 (lit "INVALID_DURATION")
  unfolding handle_create
  handle_create-none actor body d s n = rw n refl

  handle_create-some :
      (actor : Actor) (body : KeyBody) (d : Draw) (s : State) (expires_in : ℤ)
      → parse_optional_duration parse_duration body.expires_in ≡ some expires_in
      → handle_create table hash true parse_duration actor (some body) d s
        ≡ finish_create table hash (input_of actor body expires_in) d s
  unfolding handle_create
  handle_create-some actor body d s expires_in e = rw e refl

  handle_create_made :
      (actor : Actor) (body : KeyBody) (d : Draw) (s t : State) (key : ApiKey) (raw : Str)
      (events : List KeyEvent)
      → handle_create table hash true parse_duration actor (some body) d s
        ≡ (t, created key raw, events)
      → (expires_in : ℤ) × (parse_optional_duration parse_duration body.expires_in
          ≡ some expires_in)
        × (create table hash (input_of actor body expires_in) d s ≡ (t, ok (key, raw)))
  handle_create_made actor body d s t key raw events h =
      elim (Option-cases (parse_optional_duration parse_duration body.expires_in)) [
        | inl n ↦
            absurd (failure≢created (sym (handle_create-none actor body d s n) ∙ ap (λ z. z.1) h))
        | inr (expires_in, e) ↦
            let finished = sym (handle_create-some actor body d s expires_in e) ∙ h in
            let made =
              finish_create_made table hash (input_of actor body expires_in) d s key raw
                (ap (λ z. z.1) finished) in
            (expires_in, e, made ∙ ap (λ u. (u.0, ok (key, raw))) finished)
      ]

  scopes_of_lem : (input : CreateInput) → input.scopes ≢ [] → scopes_of input ≡ input.scopes
  unfolding scopes_of
  scopes_of_lem input h = elim (list_cases input.scopes) [
    | inl e ↦ absurd (h e)
    | inr (a, rest, e) ↦ rw e (ground arith)
  ]

  -- The actor that enters by a key created over the API has as its permissions the scopes that the
  -- request asked for, whatever the permissions of the actor that made the request.
  pub actor_middleware-handle_create :
      (laws : Laws table hash) (to_lower : Str → Str) (actor : Actor) (body : KeyBody) (d : Draw)
      (s t u : State) (key : ApiKey) (raw header : Str) (events : List KeyEvent) (now now' : ℕ)
      → IsHexDraw d
      → body.scopes ≢ []
      → handle_create table hash true parse_duration actor (some body) d s
        ≡ (t, created key raw, events)
      → touch (lit "key_" ++ d.id) now' t ≡ some u
      → ((n : ℤ)
          → parse_optional_duration parse_duration body.expires_in ≡ some n
          → is_past (expiry n d.now) now ≡ false)
      → raw_key_of to_lower header [] ≡ raw
      → actor_middleware table hash true to_lower header [] now now' t
        ≡ (u, entered (with_permissions actor body.scopes))
  actor_middleware-handle_create laws to_lower actor body d s t u key raw header events now now'
        drawn some_scopes h touched fresh same =
      let (expires_in, parsed, made) = handle_create_made actor body d s t key raw events h in
      let input = input_of actor body expires_in in
      let let_in =
        authenticate-create table hash laws input d s t u key raw now now' drawn made touched in
      let raw_is = (create_inserts table hash input d s t key raw made).1 in
      actor_middleware-entered table hash to_lower header [] raw now now' t u
        (with_permissions actor (scopes_of input))
        (record (key_of_row (new_row table hash input d)) { last_used_at = some now' }) same
        (λ n. raw_key≢nil d (sym raw_is ∙ n)) (let_in ∙ (rw (fresh expires_in parsed) refl))
      ∙ ap (λ scopes. (u, entered (with_permissions actor scopes)))
          (scopes_of_lem input some_scopes)
