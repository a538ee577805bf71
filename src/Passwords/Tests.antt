-- ===== src/Passwords/Tests.antt =====
-- A hash and its check, run with small stand-ins for the packages.
use gomyadmin.Base.{
  ℕ, zero, suc, ◌+◌, ◌-◌, ◌≡◌, refl, sym, ap, true, false, [], ◌∷◌, some, arith, Str, length,
  some-injective, ◌==◌, str_eq, str_beq, ◌∙◌,
}
use gomyadmin.Base.Result.{ok, err}
use gomyadmin.Passwords.RoundTrip.{
  Fits, Documented, verify_password_lem, verify_password-hash_password,
}
use gomyadmin.Passwords.{
  PasswordConfig, Primitives, invalid_hash, hash_password, verify_password, derive, with_defaults,
}
use gomyadmin.Text.{lit}
use gomyadmin.Text.Laws.{Lacks}
use gomyadmin.Text.Number.{itoa, parse_uint32}
use gomyadmin.Dict.{lookup, insert}
use gomyadmin.Text.{split_byte}

abbrev fill : ℕ → ℕ → Str
fill zero c = []
fill (suc n) c = c ∷ fill n c

length-fill : (n c : ℕ) → length (fill n c) ≡ n
length-fill zero c = refl
length-fill (suc n) c = omega (arith, length-fill n c)

abbrev shift : Str → Str
shift [] = []
shift (c ∷ s) = (c + 40) ∷ shift s

abbrev unshift : Str → Str
unshift [] = []
unshift (c ∷ s) = (c - 40) ∷ unshift s

unshift-shift : (s : Str) → unshift (shift s) ≡ s
unshift-shift [] = refl
unshift-shift (c ∷ s) = ground (arith, unshift-shift s)

shift-Lacks : (s : Str) → Lacks b'$' (shift s)
shift-Lacks [] = tt
shift-Lacks (c ∷ s) = ((omega arith), shift-Lacks s)

-- The key holds the length of the password, and the salt is all ones.
abbrev small : Primitives
small = record {
  id_key = λ password salt t m p n. fill n (length password);
  encode = shift;
  decode = λ s. some (unshift s);
  random = λ n. some (fill n 1);
}

small-Documented : Documented small
small-Documented = record {
  key_lengths = λ password salt t m p n. length-fill n (length password);
  decodes = λ s. ap some (unshift-shift s);
  no_dollar = shift-Lacks;
  fills = λ n h. ap length (sym (some-injective h)) ∙ length-fill n 1;
}

abbrev tiny : PasswordConfig
tiny = record { memory = 8; iterations = 1; parallelism = 1; salt_length = 2; key_length = 3 }

tiny-Fits : Fits tiny
tiny-Fits = record {
  memory_fits = omega arith;
  iterations_fit = omega arith;
  parallelism_fits = omega arith;
  salt_length_fits = omega arith;
  key_length_fits = omega arith;
}

abbrev stored : Str
stored = lit "$argon2id$v=19$m=8,t=1,p=1$))$---"

stored_hash : hash_password small (lit "hello") tiny ≡ ok stored
unfolding hash_password itoa
stored_hash = refl

verify_password-hash_password_example : verify_password small (lit "hello") stored ≡ ok true
verify_password-hash_password_example =
    verify_password-hash_password small small-Documented (lit "hello") tiny tiny-Fits stored_hash

verify_password_lem_example :
    verify_password small (lit "other!") stored
    ≡ ok (derive small tiny (lit "other!") (fill 2 1) == derive small tiny (lit "hello") (fill 2 1))
unfolding with_defaults
verify_password_lem_example =
    verify_password_lem small small-Documented (lit "hello") tiny tiny-Fits refl stored_hash
      (lit "other!")

wrong_password : verify_password small (lit "other!") stored ≡ ok false
unfolding verify_password str_beq lookup insert parse_uint32 split_byte
wrong_password = refl

-- A parameter `p` past a byte is read by its lowest eight bits.
wide_parallelism :
    verify_password small (lit "hello") (lit "$argon2id$v=19$m=8,t=1,p=257$))$---") ≡ ok true
unfolding verify_password split_byte str_beq parse_uint32
wide_parallelism = refl

no_number :
    verify_password small (lit "hello") (lit "$argon2id$v=19$m=8,t=,p=1$))$---") ≡ err invalid_hash
unfolding verify_password split_byte str_beq parse_uint32
no_number = refl
