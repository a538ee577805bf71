-- ===== src/Passwords/RoundTrip.antt =====
-- A password is verified against its own hash, and what an accepted hash looks like.
use gomyadmin.Base.{
  ℕ, ◌^◌, ◌<◌, ◌≡◌, ◌∙◌, refl, ap, true, [], ◌∷◌, ◌++◌, some, arith, Str, ◌==◌, str_eq, nat_eq,
  str_beq, str_beq_refl, length, List, Bool-cases, inl, inr, Option-cases,
}
use gomyadmin.Base.Result.{ok, err≢ok, ok-injective}
use gomyadmin.Dict.{Dict, lookup, insert}
use gomyadmin.Passwords.{
  PasswordConfig, Primitives, with_defaults, print_params, print_hash, derive, hash_password,
  split_two, read_params, value_of, decode_bytes, decode_parts, decode_hash, verify_password,
}
use gomyadmin.Text.Laws.{Lacks, Lacks-append, split_byte-append, split_byte-last}
use gomyadmin.Text.Number.{itoa, itoa-Lacks, parse_uint32-itoa}
use gomyadmin.Text.{lit, split_byte}

-- The fields have the widths of their Go types.
pub record Fits (config : PasswordConfig) : Type 0 where
  pub memory_fits : config.memory < 2 ^ 32
  pub iterations_fit : config.iterations < 2 ^ 32
  pub parallelism_fits : config.parallelism < 2 ^ 8
  pub salt_length_fits : config.salt_length < 2 ^ 32
  pub key_length_fits : config.key_length < 2 ^ 32

-- What the packages document: the key has the length asked for, base64 is read back and has no
-- dollar sign, and `rand.Read` fills the slice.
pub record Documented (prims : Primitives) : Type 0 where
  pub key_lengths :
      (password salt : Str) (t m p n : ℕ) → length (prims.id_key password salt t m p n) ≡ n
  pub decodes : (s : Str) → prims.decode (prims.encode s) ≡ some s
  pub no_dollar : (s : Str) → Lacks b'$' (prims.encode s)
  pub fills : (n : ℕ) {s : Str} → prims.random n ≡ some s → length s ≡ n

with_defaults-Fits : (config : PasswordConfig) → Fits config → Fits (with_defaults config)
unfolding with_defaults
with_defaults-Fits config fits = elim (Bool-cases (config.memory == 0)) [
  | inl t ↦ rw t (record {
    memory_fits = omega arith;
    iterations_fit = omega arith;
    parallelism_fits = omega arith;
    salt_length_fits = omega arith;
    key_length_fits = omega arith;
  })
  | inr t ↦ rw t fits
]

abbrev pieces : PasswordConfig → List Str
pieces config =
    (lit "m=" ++ itoa config.memory)
    ∷ (lit "t=" ++ itoa config.iterations)
    ∷ (lit "p=" ++ itoa config.parallelism)
    ∷ []

no_comma : (n : ℕ) → Lacks b',' (itoa n)
no_comma n = itoa-Lacks b',' n (omega arith)

no_dollar_digits : (n : ℕ) → Lacks b'$' (itoa n)
no_dollar_digits n = itoa-Lacks b'$' n (omega arith)

split_params : (config : PasswordConfig) → split_byte (print_params config) b',' ≡ pieces config
unfolding print_params
split_params config =
    let after_m : Str =
      lit "t=" ++ (itoa config.iterations ++ (lit ",p=" ++ itoa config.parallelism)) in
    let after_t : Str = lit "p=" ++ itoa config.parallelism in
    let first : Str = lit "m=" ++ itoa config.memory in
    let second : Str = lit "t=" ++ itoa config.iterations in
    split_byte-append b',' first after_m
      (Lacks-append b',' (lit "m=") _ (omega arith) (no_comma config.memory))
    ∙ ap (λ z. first ∷ z)
        (split_byte-append b',' second after_t
            (Lacks-append b',' (lit "t=") _ (omega arith) (no_comma config.iterations))
          ∙ ap (λ z. second ∷ z)
              (split_byte-last b',' after_t
                (Lacks-append b',' (lit "p=") _ (omega arith) (no_comma config.parallelism))))

params-Lacks : (config : PasswordConfig) → Lacks b'$' (print_params config)
unfolding print_params
params-Lacks config =
    let lacks = no_dollar_digits in
    let third = Lacks-append b'$' (lit ",p=") _ (omega arith) (lacks config.parallelism) in
    let second = Lacks-append b'$' (itoa config.iterations) _ (lacks config.iterations) third in
    let rest = Lacks-append b'$' (lit ",t=") _ (omega arith) second in
    Lacks-append b'$' (lit "m=") _ (omega arith)
      (Lacks-append b'$' (itoa config.memory) _ (lacks config.memory) rest)

read_printed :
    (config : PasswordConfig)
    → Fits config
    → (values : Dict ℕ) × (read_params (pieces config) [] ≡ ok values)
      × (value_of (lit "m") values ≡ config.memory)
      × (value_of (lit "t") values ≡ config.iterations)
      × (value_of (lit "p") values ≡ config.parallelism)
unfolding read_params value_of split_two insert lookup str_beq
read_printed config fits =
    let m = parse_uint32-itoa config.memory fits.memory_fits in
    let t = parse_uint32-itoa config.iterations fits.iterations_fit in
    let p = parse_uint32-itoa config.parallelism (omega arith) in
    (
      (lit "m", config.memory) ∷ (lit "t", config.iterations) ∷ (lit "p", config.parallelism) ∷ [],
      rw (read_params, m, t, p),
      refl,
      refl,
      refl,
    )

decode_hash_shape :
    (prims : Primitives) (encoded params salt hash a b c : Str)
    → split_byte encoded b'$' ≡ [] ∷ lit "argon2id" ∷ lit "v=19" ∷ params ∷ salt ∷ hash ∷ []
    → split_byte params b',' ≡ a ∷ b ∷ c ∷ []
    → decode_hash prims encoded ≡ decode_parts prims (a ∷ b ∷ c ∷ []) salt hash
unfolding decode_hash str_beq
decode_hash_shape prims encoded params salt hash a b c h k = rw (decode_hash, h) (rw k refl)

module _ (prims : Primitives) (documented : Documented prims) where
  split_hash :
      (config : PasswordConfig) (salt hash : Str)
      → split_byte (print_hash prims config salt hash) b'$'
        ≡ []
          ∷ lit "argon2id"
          ∷ lit "v=19"
          ∷ print_params config
          ∷ prims.encode salt
          ∷ prims.encode hash
          ∷ []
  unfolding print_hash
  split_hash config salt hash =
      let cut : (s t : Str)
          → Lacks b'$' s
          → split_byte (s ++ b'$' ∷ t) b'$' ≡ s ∷ split_byte t b'$' =
        split_byte-append b'$' in
      let from_salt = prims.encode salt ++ (b'$' ∷ prims.encode hash) in
      let from_params = print_params config ++ (b'$' ∷ from_salt) in
      let from_version = lit "v=19" ++ (b'$' ∷ from_params) in
      cut [] (lit "argon2id" ++ (b'$' ∷ from_version)) tt
      ∙ ap (λ z. [] ∷ z) (cut (lit "argon2id") from_version (omega arith))
      ∙ ap (λ z. [] ∷ lit "argon2id" ∷ z) (cut (lit "v=19") from_params (omega arith))
      ∙ ap (λ z. [] ∷ lit "argon2id" ∷ lit "v=19" ∷ z)
          (cut (print_params config) from_salt (params-Lacks config)
            ∙ ap (λ z. print_params config ∷ z)
                (cut (prims.encode salt) (prims.encode hash) (documented.no_dollar salt)
                  ∙ ap (λ z. prims.encode salt ∷ z)
                      (split_byte-last b'$' (prims.encode hash) (documented.no_dollar hash))))

  -- What is printed for a salt and a hash is read back.
  pub decode_hash-print_hash :
      (config : PasswordConfig) (salt hash : Str)
      → Fits config
      → length salt ≡ config.salt_length
      → length hash ≡ config.key_length
      → decode_hash prims (print_hash prims config salt hash) ≡ ok (config, salt, hash)
  unfolding decode_parts decode_bytes
  decode_hash-print_hash config salt hash fits of_salt of_key =
      let (values, run, m, t, p) = read_printed config fits in
      decode_hash_shape prims _ (print_params config) (prims.encode salt) (prims.encode hash) _ _ _
        (split_hash config salt hash) (split_params config)
      ∙ rw (run, decode_bytes, documented.decodes salt)
          (rw (decode_bytes, documented.decodes hash)
            (rw (m, t, p, of_salt, of_key) (ground arith)))

  module _ (password : Str) (given : PasswordConfig) (fits : Fits given) {salt : Str}
      {encoded : Str} (drawn : prims.random (with_defaults given).salt_length ≡ some salt)
      (hashed : hash_password prims password given ≡ ok encoded) where
    -- Verifying any password against the string that hashing one gave compares the two derived
    -- keys: those of the same salt and the same parameters.
    pub verify_password_lem :
        (other : Str)
        → verify_password prims other encoded
          ≡ ok (
              derive prims (with_defaults given) other salt
              == derive prims (with_defaults given) password salt)
    unfolding hash_password verify_password
    verify_password_lem other =
        let config = with_defaults given in
        let hash = derive prims config password salt in
        let printed : print_hash prims config salt hash ≡ encoded =
          ok-injective (rw (hash_password, drawn) at hashed) in
        let read =
          decode_hash-print_hash config salt hash (with_defaults-Fits given fits)
            (documented.fills config.salt_length drawn)
            (documented.key_lengths password salt _ _ _ _) in
        rw (← printed) (rw (verify_password, read) refl)

  -- A password verifies against the string that hashing it gave, whatever the parameters, if they
  -- fit the types of their fields and the packages behave as documented.
  pub verify_password-hash_password :
      (password : Str) (given : PasswordConfig)
      → Fits given
      → {encoded : Str} → hash_password prims password given ≡ ok encoded
      → verify_password prims password encoded ≡ ok true
  unfolding hash_password
  verify_password-hash_password password given fits {encoded} h =
      elim (Option-cases (prims.random (with_defaults given).salt_length)) [
        | inl e ↦ absurd (err≢ok (rw (hash_password, e) at h))
        | inr (salt, e) ↦
            verify_password_lem password given fits e h password ∙ ap ok (str_beq_refl _)
      ]
