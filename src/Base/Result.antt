-- ===== src/Base/Result.antt =====
-- A result or an error, for the functions that return `(T, error)`.
use mathlib.Core.Path.{◌≡◌, refl}
use mathlib.Core.Bool.{Bool, true, false}
use mathlib.Core.Logic.{◌⊎◌, inl, inr}
use gomyadmin.Base.Tests.{if◌then◌else◌}

pub data Result {ℓ} (E : Type 0) (A : Type ℓ) : Type ℓ where
  err : E → Result E A
  ok : A → Result E A

pub ok-injective {ℓ} :
    {E : Type 0} {A : Type ℓ} {a b : A} → ◌≡◌ {A = Result E A} (ok a) (ok b) → a ≡ b
ok-injective h = cc

pub err≢ok {ℓ} : {E : Type 0} {A : Type ℓ} {x : E} {a : A} → ◌≡◌ {A = Result E A} (err x) (ok a) → ⊥
err≢ok h = cc

infixl 5 ◌>>=◌ ◌>>◌
abbrev pub ◌>>=◌ {ℓ κ} :
    {E : Type 0} {A : Type ℓ} {B : Type κ} → Result E A → (A → Result E B) → Result E B
err failed >>= next = err failed
ok result >>= next = next result

-- Inversion of a successful chain.
pub >>=-eq-ok {ℓ κ} :
    {E : Type 0} {A : Type ℓ} {B : Type κ} (first : Result E A) (next : A → Result E B) {b : B}
    → (first >>= next) ≡ ok b
    → (a : A) × (first ≡ ok a) × (next a ≡ ok b)
>>=-eq-ok (ok a) next h = (a, refl, h)
>>=-eq-ok (err e) next h = cc

abbrev pub ◌>>◌ {ℓ} : {E : Type 0} {B : Type ℓ} → Result E (Unit {0}) → Result E B → Result E B
check >> rest = check >>= λ _. rest

pub Result-cases {ℓ} :
    {E : Type 0} {A : Type ℓ} (r : Result E A) → ((e : E) × (r ≡ err e)) ⊎ ((a : A) × (r ≡ ok a))
Result-cases (ok a) = inr (a, refl)
Result-cases (err e) = inl (e, refl)

-- A result that is no error, and how such results are put together.
pub data Succeeds {ℓ} {E : Type 0} {A : Type ℓ} : Result E A → Type ℓ where
  good : (a : A) → Succeeds (ok a)

pub if-Succeeds {ℓ} :
    {E : Type 0} {A : Type ℓ} (b : Bool) {m n : Result E A}
    → (b ≡ true → Succeeds m)
    → (b ≡ false → Succeeds n)
    → Succeeds (if b then m else n)
if-Succeeds true h k = h refl
if-Succeeds false h k = k refl

pub bind-Succeeds {ℓ κ} :
    {E : Type 0} {A : Type ℓ} {B : Type κ} {m : Result E A} (f : A → Result E B)
    → Succeeds m
    → ((a : A) → m ≡ ok a → Succeeds (f a))
    → Succeeds (m >>= f)
bind-Succeeds f (good a) k = k a refl

pub ok-Succeeds {ℓ} : {E : Type 0} {A : Type ℓ} {m : Result E A} → Succeeds m → (a : A) × (m ≡ ok a)
ok-Succeeds (good a) = (a, refl)

pub Succeeds-ok {ℓ} : {E : Type 0} {A : Type ℓ} {m : Result E A} {a : A} → m ≡ ok a → Succeeds m
Succeeds-ok {m = ok a} h = good a
Succeeds-ok {m = err e} h = absurd (err≢ok h)
