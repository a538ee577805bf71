-- ===== src/OAuth/Handlers/Login.antt =====
-- Who logs in by the callback of pkg/server/handler_auth.go.
use gomyadmin.Base.{
  ℕ, arith, ◌+◌, ◌≤◌, ◌≡◌, ◌≢◌, refl, sym, ap, ◌∙◌, inl, inr, Bool-cases, Option, none, some,
  Option-cases, [], Str, ◌==◌, str_eq, str_beq_iff,
}
use gomyadmin.Dict.{Dict, lookup}
use gomyadmin.Access.{Actor}
use gomyadmin.Session.{Session, Draw, SessionStore}
use gomyadmin.Session.Manager.{SessionManager, Cookie, start}
use gomyadmin.OAuth.{OAuthState, OAuthStateManager, Codec, max_age, cookie_name, sign, verify}
use gomyadmin.OAuth.State.{verify_sound}
use gomyadmin.OAuth.Handlers.{
  Identity, Provider, Config, logged_in, redirect_uri, redirect_failure, log_in, resolve_actor,
  finish_callback, handle_callback,
}

logged_in-injective :
    {a b : Actor} {n o : Str} {i j : Identity} {c d : Cookie} {u v : Str}
    → logged_in a n i c u ≡ logged_in b o j d v
    → (a ≡ b) × (i ≡ j) × (u ≡ v)
logged_in-injective h = (cc, cc, cc)

module _ (codec : Codec) (m : OAuthStateManager) (config : Config) (store : SessionStore)
    (sessions : SessionManager) where
  open store use {State}

  log_in-made :
      (name : Str) (flow : OAuthState) (identity : Identity) (actor : Actor) (draw : Draw)
      (s : State) (made : Session × Cookie)
      → (start store sessions actor draw s).1 ≡ some made
      → (log_in codec m config store sessions name flow identity actor draw s).1
        ≡ logged_in actor name identity made.1 flow.success_url
  unfolding log_in
  log_in-made name flow identity actor draw s made e = rw (log_in, e) refl

  log_in_url :
      (name : Str) (flow : OAuthState) (identity : Identity) (actor : Actor) (draw : Draw)
      (s : State) (actor' : Actor) (name' : Str) (identity' : Identity) (cookie : Cookie)
      (url : Str)
      → (log_in codec m config store sessions name flow identity actor draw s).1
        ≡ logged_in actor' name' identity' cookie url
      → (actor ≡ actor') × (identity ≡ identity') × (flow.success_url ≡ url)
  unfolding log_in redirect_failure
  log_in_url name flow identity actor draw s actor' name' identity' cookie url h =
      elim (Option-cases (start store sessions actor draw s).1) [
        | inl n ↦ ground arith
        | inr (made, e) ↦
            let same =
              logged_in-injective (sym (log_in-made name flow identity actor draw s made e) ∙ h) in
            (same.0, same.1, same.2)
      ]

  resolve_actor_allowed :
      (resolve : Str → Identity → Option (Option Actor)) (name : Str) (flow : OAuthState)
      (identity : Identity) (draw : Draw) (s : State) (actor : Actor) (name' : Str)
      (identity' : Identity) (cookie : Cookie) (url : Str)
      → (resolve_actor codec m config store sessions resolve name flow identity draw s).1
        ≡ logged_in actor name' identity' cookie url
      → (resolve name identity ≡ some (some actor))
        × (identity ≡ identity')
        × (flow.success_url ≡ url)
  unfolding resolve_actor redirect_failure
  resolve_actor_allowed resolve name flow identity draw s actor name' identity' cookie url h =
      elim (Option-cases (resolve name identity)) [
        | inl n ↦ ground arith
        | inr (none, e) ↦ ground arith
        | inr (some found, e) ↦
            let (same, same', to) =
              log_in_url name flow identity found draw s actor name' identity' cookie url
                (ground arith) in
            (e ∙ ap (λ z. some (some z)) same, same', to)
      ]

  finish_callback_allowed :
      (provider : Provider) (name code : Str) (flow : OAuthState) (draw : Draw) (s : State)
      (actor : Actor) (name' : Str) (identity : Identity) (cookie : Cookie) (url : Str)
      → (finish_callback codec m config store sessions provider name code flow draw s).1
        ≡ logged_in actor name' identity cookie url
      → (code ≢ [])
        × (resolve : Str → Identity → Option (Option Actor)) × (config.resolve ≡ some resolve)
        × (provider.exchange code (redirect_uri config name) ≡ some identity)
        × (resolve name identity ≡ some (some actor))
        × (flow.success_url ≡ url)
  unfolding finish_callback redirect_failure
  finish_callback_allowed provider name code flow draw s actor name' identity cookie url h =
      elim (Bool-cases (code == [])) [
        | inl empty ↦ ground arith
        | inr filled ↦ elim (Option-cases config.resolve) [
          | inl n ↦ ground arith
          | inr (resolve, e) ↦
              elim (Option-cases (provider.exchange code (redirect_uri config name))) [
                | inl n ↦ ground arith
                | inr (found, x) ↦
                    let (allowed, same, to) =
                      resolve_actor_allowed resolve name flow found draw s actor name' identity
                        cookie url (ground arith) in
                    (
                      (λ n. ground (arith, str_beq_iff code [])),
                      resolve,
                      e,
                      x ∙ ap some same,
                      ap (λ i. resolve name i) (sym same) ∙ allowed,
                      to,
                    )
              ]
        ]
      ]

  -- Whoever logs in by a callback: the cookie of the request is a state signed by the secret of the
  -- manager, with the nonce of the request and at most ten minutes old; the provider gave the identity
  -- for the code, and the configuration resolves it to the actor. The redirect goes to the URL of the
  -- state.
  pub handle_callback_sound :
      (name state code : Str) (cookies : Dict Str) (now : ℕ) (draw : Draw) (s : State)
      (actor : Actor) (name' : Str) (identity : Identity) (cookie : Cookie) (url : Str)
      → (handle_callback codec m config store sessions name state code cookies now draw s).1
        ≡ logged_in actor name' identity cookie url
      → (payload : Str) × (flow : OAuthState) × (provider : Provider) × (resolve : Str
          → Identity
          → Option (Option Actor))
        × (lookup (cookie_name m) cookies ≡ some (sign codec m payload))
        × (codec.unmarshal payload ≡ some flow)
        × (flow.state ≡ state)
        × (now ≤ flow.requested_at + max_age)
        × (lookup name config.providers ≡ some provider)
        × (config.resolve ≡ some resolve)
        × (provider.exchange code (redirect_uri config name) ≡ some identity)
        × (resolve name identity ≡ some (some actor))
        × (url ≡ flow.success_url)
  unfolding handle_callback redirect_failure
  handle_callback_sound name state code cookies now draw s actor name' identity cookie url h =
      elim (Option-cases (lookup name config.providers)) [
        | inl n ↦ ground arith
        | inr (provider, known) ↦ elim (Option-cases (verify codec m cookies state now)) [
          | inl n ↦ ground arith
          | inr (flow, verified) ↦
              let (payload, signed, read, nonce, in_time) =
                verify_sound codec m cookies state now flow verified in
              let (_, resolve, configured, exchanged, allowed, to) =
                finish_callback_allowed provider name code flow draw s actor name' identity cookie
                  url (ground arith) in
              (
                payload,
                flow,
                provider,
                resolve,
                signed,
                read,
                nonce,
                in_time,
                known,
                configured,
                exchanged,
                allowed,
                sym to,
              )
        ]
      ]
