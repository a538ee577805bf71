-- ===== src/OAuth/State.antt =====
-- What `Verify` of pkg/auth/oauth.go accepts.
use gomyadmin.Base.{
  ℕ, arith, ◌+◌, ◌≡◌, ◌≢◌, ◌≤◌, refl, sym, ap, subst, ◌∙◌, inl, inr, Bool-cases, Option, none, some,
  Option-cases, some-injective, [], ◌∷◌, ◌++◌, Str, ◌==◌, str_eq, str_beq-false, str_beq_refl,
  str_beq_iff, ltb, if◌then◌else◌,
}
use gomyadmin.Text.{lit, split_byte}
use gomyadmin.Text.Laws.{Lacks, split_byte-append, split_byte-last}
use gomyadmin.Dict.{Dict, lookup, insert, lookup-insert}
use gomyadmin.OAuth.{
  OAuthState, OAuthStateManager, OAuthCookie, Codec, max_age, cookie_name, sign, payload_of,
  verify_signed, begun, begin, verify_payload, verify_cookie, verify,
}

-- What the state manager relies on: base64 is read back, neither it nor hex has a dot, and the state
-- is read back from its JSON.
pub record Laws (codec : Codec) (m : OAuthStateManager) (s : OAuthState) : Type 0 where
  pub decoded : (payload : Str) → codec.decode (codec.encode payload) ≡ some payload
  pub plain : (payload : Str) → Lacks b'.' (codec.encode payload)
  pub hex : (payload : Str) → Lacks b'.' (codec.hmac m.signing_secret payload)
  pub read_back :
      (payload : Str) → codec.marshal s ≡ some payload → codec.unmarshal payload ≡ some s

module _ (codec : Codec) (m : OAuthStateManager) where
  sign≢nil : (payload : Str) → sign codec m payload ≢ []
  unfolding sign
  sign≢nil payload = joined (codec.encode payload) (codec.hmac m.signing_secret payload)
    where
      joined : (s t : Str) → s ++ (lit "." ++ t) ≢ []
      joined [] t h = cc
      joined (c ∷ s) t h = cc

  payload_of-sign :
      (s : OAuthState) (laws : Laws codec m s) (payload : Str)
      → payload_of codec m (split_byte (sign codec m payload) b'.') ≡ some payload
  unfolding sign
  payload_of-sign s laws payload =
      ap (payload_of codec m) (
        split_byte-append b'.' (codec.encode payload) (codec.hmac m.signing_secret payload)
          (laws.plain payload)
        ∙ ap (λ z. codec.encode payload ∷ z)
            (split_byte-last b'.' (codec.hmac m.signing_secret payload) (laws.hex payload)))
      ∙ laws.decoded payload

  verify_signed-sign :
      (s : OAuthState) (laws : Laws codec m s) (payload : Str)
      → verify_signed codec m (sign codec m payload) ≡ some payload
  unfolding verify_signed
  verify_signed-sign s laws payload =
      rw (verify_signed, payload_of-sign s laws payload, str_beq_refl (sign codec m payload)) refl

  verify_cookie-sign :
      (s : OAuthState) (laws : Laws codec m s) (payload state : Str) (now : ℕ)
      → verify_cookie codec m state now (sign codec m payload)
        ≡ verify_payload codec m state now payload
  unfolding verify_cookie
  verify_cookie-sign s laws payload state now =
      rw
        (
          verify_cookie,
          str_beq-false (sign codec m payload) [] (sign≢nil payload),
          verify_signed-sign s laws payload,
        )
        refl

  verify_payload-own :
      (s : OAuthState) (laws : Laws codec m s) (payload : Str) (now : ℕ)
      → codec.marshal s ≡ some payload
      → verify_payload codec m s.state now payload
        ≡ (if ltb (s.requested_at + max_age) now then none else some s)
  unfolding verify_payload
  verify_payload-own s laws payload now h =
      rw (verify_payload, laws.read_back payload h, str_beq_refl s.state) refl

  begin-eq :
      (token : Option Str) (now : ℕ) (s full : OAuthState) (payload : Str)
      → begun codec m token now s ≡ some full
      → codec.marshal full ≡ some payload
      → begin codec m token now s
        ≡ some (
          full.state,
          record { name = cookie_name m; value = sign codec m payload; secure = m.secure },
        )
  unfolding begin
  begin-eq token now s full payload b e = rw (begin, b, e) refl

  begin_signs :
      (token : Option Str) (now : ℕ) (s full : OAuthState) (nonce : Str) (cookie : OAuthCookie)
      → begun codec m token now s ≡ some full
      → begin codec m token now s ≡ some (nonce, cookie)
      → (payload : Str) × (codec.marshal full ≡ some payload)
        × (full.state ≡ nonce)
        × (cookie.name ≡ cookie_name m)
        × (cookie.value ≡ sign codec m payload)
  unfolding begin
  begin_signs token now s full nonce cookie b h = elim (Option-cases (codec.marshal full)) [
    | inl n ↦ ground arith
    | inr (payload, e) ↦
        let both = some-injective (sym (begin-eq token now s full payload b e) ∙ h) in
        (
          payload,
          e,
          ap (λ z. z.0) both,
          sym (ap (λ z. z.1.name) both),
          sym (ap (λ z. z.1.value) both),
        )
  ]

  verify-cookie :
      (cookies : Dict Str) (state value : Str) (now : ℕ)
      → lookup (cookie_name m) cookies ≡ some value
      → verify codec m cookies state now ≡ verify_cookie codec m state now value
  unfolding verify
  verify-cookie cookies state value now h = rw (verify, h) refl

  -- The nonce and the cookie of a `Begin` are accepted by `Verify`, which gives the state with what
  -- `Begin` added, up to ten minutes after its time, and refused after that; the browser may have
  -- other cookies.
  pub verify-begin :
      (token : Option Str) (now later : ℕ) (s full : OAuthState) (nonce : Str)
      (cookie : OAuthCookie) (cookies : Dict Str)
      → (laws : Laws codec m full) → begun codec m token now s ≡ some full
      → begin codec m token now s ≡ some (nonce, cookie)
      → verify codec m (insert cookie.name cookie.value cookies) nonce later
        ≡ (if ltb (full.requested_at + max_age) later then none else some full)
  verify-begin token now later s full nonce cookie cookies laws b h =
      let (payload, marshalled, same, name, value) =
        begin_signs token now s full nonce cookie b h in
      let there : lookup (cookie_name m) (insert cookie.name cookie.value cookies)
          ≡ some cookie.value =
        lookup-insert cookie.name (cookie_name m) cookie.value cookies
        ∙ rw ((str_beq_iff cookie.name (cookie_name m)).1 name) refl in
      verify-cookie (insert cookie.name cookie.value cookies) nonce cookie.value later there
      ∙ ap (verify_cookie codec m nonce later) value
      ∙ verify_cookie-sign full laws payload nonce later
      ∙ ap (λ z. verify_payload codec m z later payload) (sym same)
      ∙ verify_payload-own full laws payload later marshalled

  verify_signed_sound :
      (value payload : Str)
      → verify_signed codec m value ≡ some payload
      → sign codec m payload ≡ value
  unfolding verify_signed
  verify_signed_sound value payload h =
      elim (Option-cases (payload_of codec m (split_byte value b'.'))) [
        | inl n ↦ ground arith
        | inr (p, e) ↦ elim (Bool-cases (sign codec m p == value)) [
          | inr f ↦ ground arith
          | inl t ↦
              let same : p ≡ payload = ground arith in
              ap (sign codec m) (sym same) ∙ (str_beq_iff (sign codec m p) value).0 t
        ]
      ]

  verify_payload_sound :
      (state payload : Str) (now : ℕ) (stored : OAuthState)
      → verify_payload codec m state now payload ≡ some stored
      → (codec.unmarshal payload ≡ some stored)
        × (stored.state ≡ state)
        × (now ≤ stored.requested_at + max_age)
  unfolding verify_payload
  verify_payload_sound state payload now stored h = elim (Option-cases (codec.unmarshal payload)) [
    | inl n ↦ ground arith
    | inr (s, e) ↦ elim (Bool-cases (s.state == state)) [
      | inr f ↦ ground arith
      | inl t ↦ elim (Bool-cases (ltb (s.requested_at + max_age) now)) [
        | inl late ↦ ground arith
        | inr fresh ↦
            let same : s ≡ stored = ground arith in
            let in_time : now ≤ s.requested_at + max_age = ground arith in
            (
              e ∙ ap some same,
              subst (λ z. z.state ≡ state) same ((str_beq_iff s.state state).0 t),
              subst (λ z. now ≤ z.requested_at + max_age) same in_time,
            )
      ]
    ]
  ]

  -- What `Verify` accepts: the cookie is the signature, by the secret of the manager, of the JSON of a
  -- state with the nonce of the request, which is at most ten minutes old.
  pub verify_sound :
      (cookies : Dict Str) (state : Str) (now : ℕ) (stored : OAuthState)
      → verify codec m cookies state now ≡ some stored
      → (payload : Str) × (lookup (cookie_name m) cookies ≡ some (sign codec m payload))
        × (codec.unmarshal payload ≡ some stored)
        × (stored.state ≡ state)
        × (now ≤ stored.requested_at + max_age)
  unfolding verify verify_cookie
  verify_sound cookies state now stored h = elim (Option-cases (lookup (cookie_name m) cookies)) [
    | inl n ↦ ground arith
    | inr (value, e) ↦ elim (Bool-cases (value == [])) [
      | inl empty ↦ ground arith
      | inr filled ↦ elim (Option-cases (verify_signed codec m value)) [
        | inl n ↦ ground arith
        | inr (payload, signed) ↦
            let (read, nonce, in_time) =
              verify_payload_sound state payload now stored (ground arith) in
            (
              payload,
              e ∙ ap some (sym (verify_signed_sound value payload signed)),
              read,
              nonce,
              in_time,
            )
      ]
    ]
  ]
