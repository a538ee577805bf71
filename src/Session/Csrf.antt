-- ===== src/Session/Csrf.antt =====
-- `CSRFMiddleware` of pkg/auth/csrf.go: whether the next handler runs.
use gomyadmin.Base.{
  ◌≡◌, ◌≢◌, ◌↔◌, ◌⊎◌, inl, inr, Bool, true, false, not, ◌||◌, Option, none, some, [], Str, ◌==◌,
  str_eq, arith, if◌then◌else◌, str_beq_iff, Option-cases, Bool-cases,
}
use gomyadmin.Text.{lit}

-- The method, the header X-CSRF-Token ("" where it is missing) and the cookie gomyadmin_csrf.
unfoldable pub csrf_middleware : Str → Str → Option Str → Bool
csrf_middleware method header cookie =
    if method == lit "GET" || (method == lit "HEAD" || method == lit "OPTIONS")
    then true
    else elim cookie [
      | none ↦ false
      | some value ↦ if value == [] || not (header == value) then false else true
    ]

abbrev pub IsReading : Str → Type 0
IsReading method = (method ≡ lit "GET") ⊎ ((method ≡ lit "HEAD") ⊎ (method ≡ lit "OPTIONS"))

-- A request passes exactly when its method is GET, HEAD or OPTIONS, or it has the cookie, and the
-- header has the value of the cookie, which is not empty.
pub csrf_middleware_iff :
    (method header : Str) (cookie : Option Str)
    → (csrf_middleware method header cookie ≡ true) ↔ (
        IsReading method
        ⊎ ((value : Str) × (cookie ≡ some value) × (value ≢ []) × (header ≡ value)))
unfolding csrf_middleware
csrf_middleware_iff method header cookie = (sound, complete)
  where
    sound :
        csrf_middleware method header cookie ≡ true
        → IsReading method
          ⊎ ((value : Str) × (cookie ≡ some value) × (value ≢ []) × (header ≡ value))
    sound h =
        elim (Bool-cases
          (method == lit "GET" || (method == lit "HEAD" || method == lit "OPTIONS"))) [
            | inl r ↦ inl (
                ground (
                  arith,
                  str_beq_iff method (lit "GET"),
                  str_beq_iff method (lit "HEAD"),
                  str_beq_iff method (lit "OPTIONS"),
                ))
            | inr w ↦ elim (Option-cases cookie) [
              | inl e ↦ ground arith
              | inr (value, e) ↦ inr (
                value,
                e,
                ground (arith, str_beq_iff value []),
                ground (arith, str_beq_iff header value),
              )
            ]
          ]

    complete :
        IsReading method ⊎ ((value : Str) × (cookie ≡ some value) × (value ≢ []) × (header ≡ value))
        → csrf_middleware method header cookie ≡ true
    complete (inl r) = ground (
      arith,
      str_beq_iff method (lit "GET"),
      str_beq_iff method (lit "HEAD"),
      str_beq_iff method (lit "OPTIONS"),
    )
    complete (inr (value, e, ne, same)) =
        rw e (ground (arith, str_beq_iff value [], str_beq_iff header value))
