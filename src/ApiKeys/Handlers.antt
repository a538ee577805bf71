-- ===== src/ApiKeys/Handlers.antt =====
-- The handlers of pkg/server/handler_api_keys.go and the choice of the actor, `actorMiddleware` of
-- pkg/server/handler.go, which runs before them.
use gomyadmin.Base.{
  ℕ, Bool, Option, none, some, List, [], ◌∷◌, Str, ◌==◌, str_eq, drop, if◌then◌else◌,
}
use gomyadmin.Base.Int.{ℤ, pos}
use gomyadmin.Base.Result.{Result, ok, err}
use gomyadmin.Text.{lit, trim_space, has_prefix}
use gomyadmin.Access.{Actor}
use gomyadmin.ApiKeys.{
  ApiKey, CreateInput, KeyTable, KeyError, not_found, Draw, create, authenticate, list, revoke_key,
}

-- The body of a `handleCreateAPIKey`.
pub record KeyBody : Type 0 where
  pub name : Str
  pub scopes : List Str
  pub expires_in : Str

-- The replies, a failure with its status and code.
pub data KeyReply : Type 0 where
  failure : ℕ → Str → KeyReply
  keys : List ApiKey → KeyReply
  created : ApiKey → Str → KeyReply
  revoked : KeyReply

-- What `emitAudit` is called with: the actor, the action and the id, and the new values.
pub data KeyEvent : Type 0 where
  created_event : Actor → Str → Str → Str → List Str → KeyEvent
  revoked_event : Actor → Str → KeyEvent

-- What the middleware makes of a request: an actor by a key, a refusal, or a request that the
-- sessions decide on.
pub data Entry : Type 0 where
  entered : Actor → Entry
  refused : ℕ → Str → Entry
  by_session : Entry

-- The replies of `actorMiddleware` to what `Authenticate` gave.
abbrev pub entry_of : Result KeyError (Option (Actor × ApiKey)) → Entry
entry_of (err e) = refused 500 (lit "AUTH_FAILED")
entry_of (ok none) = refused 401 (lit "UNAUTHENTICATED")
entry_of (ok (some who)) = entered who.0

-- The key of a request, from `X-API-Key` or else `Authorization`; `to_lower` is `strings.ToLower`.
unfoldable pub raw_key_of : (Str → Str) → Str → Str → Str
raw_key_of to_lower api_key_header authorization =
    let raw = trim_space api_key_header in
    let authz = trim_space authorization in
    let bearer =
      if has_prefix (to_lower authz) (lit "bearer ") then trim_space (drop 7 authz) else raw in
    if raw == [] then bearer else raw

-- `func parseOptionalDuration`, over `time.ParseDuration`.
unfoldable pub parse_optional_duration : (Str → Option ℤ) → Str → Option ℤ
parse_optional_duration parse_duration raw = if raw == [] then some (pos 0) else parse_duration raw

-- `err.Error()`, and what it comes to.
abbrev failed_create : KeyError → KeyReply
failed_create e = failure 400 (lit "CREATE_FAILED")

module _ (table : KeyTable) (hash : Str → Str) where
  open table use {State}

  -- The rest of `handleCreateAPIKey`, from the call of `Create` on.
  unfoldable pub finish_create : CreateInput → Draw → State → State × KeyReply × List KeyEvent
  finish_create input d s =
      let made = create table hash input d s in
      elim made.1 [
        | err e ↦ (made.0, failed_create e, [])
        | ok (key, secret) ↦ (
          made.0,
          created key secret,
          created_event input.actor key.id key.name key.prefix key.scopes ∷ [],
        )
      ]

-- `enabled` is `s.apiKeys != nil`.
module _ (table : KeyTable) (hash : Str → Str) (enabled : Bool) where
  open table use {State}

  -- `func (s *AdminServer) actorMiddleware`
  unfoldable pub actor_middleware : (Str → Str) → Str → Str → ℕ → ℕ → State → State × Entry
  actor_middleware to_lower api_key_header authorization now now' s =
      let raw = raw_key_of to_lower api_key_header authorization in
      let answer = authenticate table hash raw now now' s in
      if raw == []
      then (s, by_session)
      else if enabled
      then (answer.0, entry_of answer.1)
      else (s, refused 401 (lit "UNAUTHENTICATED"))

  -- `func (s *AdminServer) handleListAPIKeys`
  unfoldable pub handle_list : Actor → State → KeyReply
  handle_list actor s =
      let reply : KeyReply = elim (list table hash actor s) [
        | err e ↦ failure 500 (lit "QUERY_FAILED")
        | ok found ↦ keys found
      ] in
      if enabled then reply else failure 501 (lit "NOT_ENABLED")

  -- `func (s *AdminServer) handleCreateAPIKey`; a body is none for invalid JSON.
  unfoldable pub handle_create :
      (Str → Option ℤ) → Actor → Option KeyBody → Draw → State → State × KeyReply × List KeyEvent
  handle_create parse_duration actor body d s =
      let answer : State × KeyReply × List KeyEvent = elim body [
        | none ↦ (s, failure 400 (lit "INVALID_JSON"), [])
        | some input ↦ elim (parse_optional_duration parse_duration input.expires_in) [
          | none ↦ (s, failure 400 (lit "INVALID_DURATION"), [])
          | some expires_in ↦
              finish_create table hash
                (record {
                  name = input.name;
                  actor = actor;
                  scopes = input.scopes;
                  expires_in = expires_in;
                })
                d s
        ]
      ] in
      if enabled then answer else (s, failure 501 (lit "NOT_ENABLED"), [])

  -- `func (s *AdminServer) handleRevokeAPIKey`
  unfoldable pub handle_revoke : Actor → Str → State → State × KeyReply × List KeyEvent
  handle_revoke actor id s =
      let done = revoke_key table hash id actor s in
      let answer : State × KeyReply × List KeyEvent = elim done.1 [
        | ok _ ↦ (done.0, revoked, revoked_event actor id ∷ [])
        | err e ↦ elim e [
          | not_found ↦ (done.0, failure 404 (lit "NOT_FOUND"), [])
          | _ ↦ (done.0, failure 500 (lit "REVOKE_FAILED"), [])
        ]
      ] in
      if enabled then answer else (s, failure 501 (lit "NOT_ENABLED"), [])
