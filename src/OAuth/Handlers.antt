-- ===== src/OAuth/Handlers.antt =====
-- `handleOAuthStart` and `handleOAuthCallback` of pkg/server/handler_auth.go.
pub mod Login
use gomyadmin.Base.{ℕ, Option, none, some, List, [], ◌∷◌, ◌++◌, Str, ◌==◌, str_eq, if◌then◌else◌}
use gomyadmin.Text.{lit}
use gomyadmin.Dict.{Dict, lookup}
use gomyadmin.Access.{Actor}
use gomyadmin.Session.{Session, Draw, SessionStore}
use gomyadmin.Session.Manager.{SessionManager, Cookie, start}
use gomyadmin.Server.Meta.{first_non_empty}
use gomyadmin.OAuth.{OAuthState, OAuthStateManager, OAuthCookie, Codec, begin, verify}

-- `type OAuthIdentity struct`, less the raw answer of the provider
pub record Identity : Type 0 where
  pub provider : Str
  pub subject : Str
  pub email : Str
  pub name : Str
  pub access_token : Str

-- A provider: `AuthorizationURL` and `Exchange`, the second of which asks the provider.
pub record Provider : Type 0 where
  pub authorization_url : Str → Str → Str
  pub exchange : Str → Str → Option Identity

-- The configuration of the server, as far as these handlers read it. `resolve` gives none for an
-- error, and no actor for a login that is not allowed.
pub record Config : Type 0 where
  pub providers : Dict Provider
  pub public_url : Str
  pub success_url : Str
  pub failure_url : Str
  pub resolve : Option (Str → Identity → Option (Option Actor))

-- The replies to a start and to a callback. A failed callback redirects to the URL with the reason. A
-- login sets the cookie of the session, is in the audit log with the actor, the provider and the
-- identity, and redirects to the URL.
pub data StartReply : Type 0 where
  unknown_provider start_failed : StartReply
  sent_to : Str → OAuthCookie → StartReply

pub data CallbackReply : Type 0 where
  no_provider : CallbackReply
  failed : Str → Str → CallbackReply
  logged_in : Actor → Str → Identity → Cookie → Str → CallbackReply

-- `s.cfg.PublicURL + "/admin/api/auth/oauth/" + providerName + "/callback"`
unfoldable pub redirect_uri : Config → Str → Str
redirect_uri config name =
    config.public_url ++ (lit "/admin/api/auth/oauth/" ++ (name ++ lit "/callback"))

-- The state of a flow before `Begin`, by the values of `success` and `failure` in the query.
unfoldable pub flow_of : Config → Str → Str → Str → OAuthState
flow_of config name success failure = record {
  provider = name;
  state = [];
  success_url = first_non_empty (success ∷ config.success_url ∷ []);
  failure_url = first_non_empty (failure ∷ config.failure_url ∷ []);
  requested_at = 0;
}

-- `func (s *AdminServer) handleOAuthStart`
unfoldable pub handle_start :
    Codec → OAuthStateManager → Config → Str → Str → Str → Option Str → ℕ → StartReply
handle_start codec m config name success failure token now = elim (lookup name config.providers) [
  | none ↦ unknown_provider
  | some provider ↦ elim (begin codec m token now (flow_of config name success failure)) [
    | none ↦ start_failed
    | some (nonce, cookie) ↦
        sent_to (provider.authorization_url (redirect_uri config name) nonce) cookie
  ]
]

module _ (codec : Codec) (m : OAuthStateManager) (config : Config) (store : SessionStore)
    (sessions : SessionManager) where
  open store use {State}

  -- `func (s *AdminServer) redirectOAuthFailure`, less the query that takes up the reason.
  unfoldable pub redirect_failure : Str → Str → CallbackReply
  redirect_failure base reason = failed (first_non_empty (base ∷ config.failure_url ∷ [])) reason

  -- The callback after the actor was resolved.
  unfoldable pub log_in : Str → OAuthState → Identity → Actor → Draw → State → State × CallbackReply
  log_in name flow identity actor draw s =
      let started = start store sessions actor draw s in
      (
        started.0,
        (elim started.1 [
          | none ↦ redirect_failure flow.failure_url (lit "session")
          | some made ↦ logged_in actor name identity made.1 flow.success_url
        ]),
      )

  -- The callback after the exchange of the code.
  unfoldable pub resolve_actor :
      (Str → Identity → Option (Option Actor))
      → Str
      → OAuthState
      → Identity
      → Draw
      → State
      → State × CallbackReply
  resolve_actor resolve name flow identity draw s = elim (resolve name identity) [
    | none ↦ (s, redirect_failure flow.failure_url (lit "denied"))
    | some allowed ↦ elim allowed [
      | none ↦ (s, redirect_failure flow.failure_url (lit "denied"))
      | some actor ↦ log_in name flow identity actor draw s
    ]
  ]

  -- The callback after the state was verified.
  unfoldable pub finish_callback :
      Provider → Str → Str → OAuthState → Draw → State → State × CallbackReply
  finish_callback provider name code flow draw s =
      let asked : State × CallbackReply = elim config.resolve [
        | none ↦ (s, redirect_failure flow.failure_url (lit "not_configured"))
        | some resolve ↦ elim (provider.exchange code (redirect_uri config name)) [
          | none ↦ (s, redirect_failure flow.failure_url (lit "exchange"))
          | some identity ↦ resolve_actor resolve name flow identity draw s
        ]
      ] in
      if code == [] then (s, redirect_failure flow.failure_url (lit "code")) else asked

  -- `func (s *AdminServer) handleOAuthCallback`. With a known provider it also clears the cookie of the
  -- state, and a login sets a CSRF cookie with a random token.
  unfoldable pub handle_callback :
      Str → Str → Str → Dict Str → ℕ → Draw → State → State × CallbackReply
  handle_callback name state code cookies now draw s = elim (lookup name config.providers) [
    | none ↦ (s, no_provider)
    | some provider ↦ elim (verify codec m cookies state now) [
      | none ↦ (s, redirect_failure config.failure_url (lit "state"))
      | some flow ↦ finish_callback provider name code flow draw s
    ]
  ]
