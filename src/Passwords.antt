-- ===== src/Passwords.antt =====
-- Models `pkg/auth/password.go`: the hash of a password with its parameters in one string, and the
-- check of a password against such a string.
mod Tests
pub mod RoundTrip
use gomyadmin.Base.{
  ℕ, ◌+◌, ◌*◌, ◌%◌, ◌^◌, ◌≡◌, Bool, true, false, List, [], ◌∷◌, ◌++◌, Option, none, some, Str, ◌==◌,
  str_eq, nat_eq, if◌then◌else◌, length,
}
use gomyadmin.Base.Result.{Result, ok, err, ◌>>=◌}
use gomyadmin.Dict.{Dict, lookup, insert}
use gomyadmin.Text.{lit, split_byte}
use gomyadmin.Text.Number.{itoa, parse_uint32}

pub record PasswordConfig : Type 0 where
  pub memory : ℕ
  pub iterations : ℕ
  pub parallelism : ℕ
  pub salt_length : ℕ
  pub key_length : ℕ

abbrev pub default_password_config : PasswordConfig
default_password_config = record {
  memory = 64 * 1024;
  iterations = 3;
  parallelism = 2;
  salt_length = 16;
  key_length = 32;
}

-- What the file calls: `argon2.IDKey`, `base64.RawStdEncoding`, and `rand.Read` into a slice of some
-- length, which may fail.
pub record Primitives : Type 0 where
  pub id_key : Str → Str → ℕ → ℕ → ℕ → ℕ → Str
  pub encode : Str → Str
  pub decode : Str → Option Str
  pub random : ℕ → Option Str

pub data PasswordError : Type 0 where
  invalid_hash : PasswordError
  random_failed : PasswordError

-- `config` of `HashPassword` behind its first statement.
unfoldable pub with_defaults : PasswordConfig → PasswordConfig
with_defaults config = if config.memory == 0 then default_password_config else config

-- The parameters in their printed form.
unfoldable pub print_params : PasswordConfig → Str
print_params config =
    lit "m="
    ++ (itoa config.memory
        ++ (lit ",t=" ++ (itoa config.iterations ++ (lit ",p=" ++ itoa config.parallelism))))

unfoldable pub print_hash : Primitives → PasswordConfig → Str → Str → Str
unfolding print_params
print_hash prims config salt hash =
    lit "$argon2id$v=19$"
    ++ (print_params config ++ (lit "$" ++ (prims.encode salt ++ (lit "$" ++ prims.encode hash))))

-- `argon2.IDKey` as both functions call it.
unfoldable pub derive : Primitives → PasswordConfig → Str → Str → Str
derive prims config password salt =
    prims.id_key password salt config.iterations config.memory config.parallelism config.key_length

unfoldable pub hash_password : Primitives → Str → PasswordConfig → Result PasswordError Str
unfolding with_defaults derive print_hash
hash_password prims password given =
    let config = with_defaults given in
    elim (prims.random config.salt_length) [
      | none ↦ err random_failed
      | some salt ↦ ok (print_hash prims config salt (derive prims config password salt))
    ]

-- `strings.SplitN(s, sep, 2)`, when it has two parts.
unfoldable pub split_two : ℕ → Str → Option (Str × Str)
split_two sep [] = none
split_two sep (c ∷ s) =
    if c == sep
    then some ([], s)
    else elim (split_two sep s) [ none ↦ none | some (front, back) ↦ some (c ∷ front, back) ]

-- The loop of `decodeHash` over the parameters.
unfoldable pub read_params : List Str → Dict ℕ → Result PasswordError (Dict ℕ)
unfolding split_two
read_params [] values = ok values
read_params (param ∷ params) values = elim (split_two b'=' param) [
  | none ↦ err invalid_hash
  | some (key, text) ↦ elim (parse_uint32 text) [
    | none ↦ err invalid_hash
    | some parsed ↦ read_params params (insert key parsed values)
  ]
]

-- `values[key]`, which is 0 for a key that is missing.
unfoldable pub value_of : Str → Dict ℕ → ℕ
value_of key values = elim (lookup key values) [ none ↦ 0 | some n ↦ n ]

unfoldable pub decode_bytes : Primitives → Str → Result PasswordError Str
decode_bytes prims text = elim (prims.decode text) [ none ↦ err invalid_hash | some s ↦ ok s ]

-- `decodeHash` behind its two checks of the shape: the parameters, the salt and the hash.
unfoldable pub decode_parts :
    Primitives → List Str → Str → Str → Result PasswordError (PasswordConfig × Str × Str)
unfolding read_params value_of decode_bytes
decode_parts prims params salt_text hash_text = do
  values ← read_params params []
  salt ← decode_bytes prims salt_text
  hash ← decode_bytes prims hash_text
  ok (
    record {
      memory = value_of (lit "m") values % 2 ^ 32;
      iterations = value_of (lit "t") values % 2 ^ 32;
      parallelism = value_of (lit "p") values % 2 ^ 8;
      salt_length = length salt % 2 ^ 32;
      key_length = length hash % 2 ^ 32;
    },
    salt,
    hash,
  )

unfoldable pub decode_hash : Primitives → Str → Result PasswordError (PasswordConfig × Str × Str)
unfolding decode_parts
decode_hash prims encoded = elim (split_byte encoded b'$') [
  | (_ ∷ name ∷ version ∷ params ∷ salt ∷ hash ∷ []) ↦
      if name == lit "argon2id"
      then if version == lit "v=19"
        then elim (split_byte params b',') [
          | (a ∷ b ∷ c ∷ []) ↦ decode_parts prims (a ∷ b ∷ c ∷ []) salt hash
          | _ ↦ err invalid_hash
        ]
        else err invalid_hash
      else err invalid_hash
  | _ ↦ err invalid_hash
]

unfoldable pub verify_password : Primitives → Str → Str → Result PasswordError Bool
unfolding decode_hash derive
verify_password prims password encoded = do
  (config, salt, expected) ← decode_hash prims encoded
  ok (derive prims config password salt == expected)
