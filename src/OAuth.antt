-- ===== src/OAuth.antt =====
-- The signed state of a login with a provider: `OAuthStateManager` of pkg/auth/oauth.go.
pub mod State
pub mod Handlers
mod Tests
use gomyadmin.Base.{
  ℕ, ◌+◌, Bool, Option, none, some, List, [], ◌∷◌, ◌++◌, Str, ◌==◌, str_eq, nat_eq, ltb,
  if◌then◌else◌,
}
use gomyadmin.Text.{lit, split_byte}
use gomyadmin.Dict.{Dict, lookup}

-- `type OAuthState struct`
pub record OAuthState : Type 0 where
  pub provider : Str
  pub state : Str
  pub success_url : Str
  pub failure_url : Str
  pub requested_at : ℕ

-- `type OAuthStateManager struct`
pub record OAuthStateManager : Type 0 where
  pub signing_secret : Str
  pub cookie_name : Str
  pub secure : Bool

-- The cookie of `Begin`, as far as it depends on the call.
pub record OAuthCookie : Type 0 where
  pub name : Str
  pub value : Str
  pub secure : Bool

-- What is called of other packages: the hex of the HMAC of a payload by a secret, unpadded base64 in
-- its URL alphabet, and the JSON of a state.
pub record Codec : Type 0 where
  pub hmac : Str → Str → Str
  pub encode : Str → Str
  pub decode : Str → Option Str
  pub marshal : OAuthState → Option Str
  pub unmarshal : Str → Option OAuthState

-- Ten minutes
abbrev pub max_age : ℕ
max_age = 600000000000

-- `if m.CookieName == "" { m.CookieName = "gomyadmin_oauth" }`
unfoldable pub cookie_name : OAuthStateManager → Str
cookie_name m = if m.cookie_name == [] then lit "gomyadmin_oauth" else m.cookie_name

module _ (codec : Codec) (m : OAuthStateManager) where
  -- `func (m OAuthStateManager) sign`
  unfoldable pub sign : Str → Str
  sign payload = codec.encode payload ++ (lit "." ++ codec.hmac m.signing_secret payload)

  abbrev pub payload_of : List Str → Option Str
  payload_of (first ∷ second ∷ []) = codec.decode first
  payload_of _ = none

  -- `func (m OAuthStateManager) verify`
  unfoldable pub verify_signed : Str → Option Str
  verify_signed signed = elim (payload_of (split_byte signed b'.')) [
    | none ↦ none
    | some payload ↦ if sign payload == signed then some payload else none
  ]

  -- The state with what `Begin` adds, with its random token and its reading of the clock.
  unfoldable pub begun : Option Str → ℕ → OAuthState → Option OAuthState
  begun token now s =
      let stamped =
        λ (s : OAuthState). if s.requested_at == 0 then record s { requested_at = now } else s in
      let drawn : Option OAuthState = elim token [
        | none ↦ none
        | some nonce ↦ some (stamped (record s { state = nonce }))
      ] in
      if s.state == [] then drawn else some (stamped s)

  -- `func (m OAuthStateManager) Begin`
  unfoldable pub begin : Option Str → ℕ → OAuthState → Option (Str × OAuthCookie)
  begin token now s = elim (begun token now s) [
    | none ↦ none
    | some full ↦ elim (codec.marshal full) [
      | none ↦ none
      | some payload ↦
          some
            (full.state, record { name = cookie_name m; value = sign payload; secure = m.secure })
    ]
  ]

  -- The checks of `Verify` after the signature.
  unfoldable pub verify_payload : Str → ℕ → Str → Option OAuthState
  verify_payload state now payload = elim (codec.unmarshal payload) [
    | none ↦ none
    | some stored ↦
        if stored.state == state
        then (if ltb (stored.requested_at + max_age) now then none else some stored)
        else none
  ]

  unfoldable pub verify_cookie : Str → ℕ → Str → Option OAuthState
  verify_cookie state now value =
      let read : Option OAuthState = elim (verify_signed value) [
        | none ↦ none
        | some payload ↦ verify_payload state now payload
      ] in
      if value == [] then none else read

  -- `func (m OAuthStateManager) Verify` at the time `now`; `none` is its error.
  unfoldable pub verify : Dict Str → Str → ℕ → Option OAuthState
  verify cookies state now = elim (lookup (cookie_name m) cookies) [
    | none ↦ none
    | some value ↦ verify_cookie state now value
  ]
