-- ===== src/Prelude/Results.antt =====
-- Go's `(T, error)` as a result type with `do`, and the errors that the code makes and tests.
use Prim.Native.String.{String}
use mathlib.Core.Path.{◌≡◌, refl}
use mathlib.Core.Bool.{Bool, true, false}
use mathlib.Core.Logic.{◌⊎◌, inl, inr}
use mysnapshotter.Prelude.Tests.{if◌then◌else◌}

-- `errors.New` and `fmt.Errorf` keep their text; `%w` wraps; three classes of `errdefs` are
-- tested by the code, and `external` stands for any other error of a library call.
pub data Error : Type 0 where
  message : String → Error
  wrap : String → Error → Error
  not_found already_exists failed_precondition : Error
  external : String → Error
  -- A nil pointer that is followed, which ends the program.
  nil_pointer : Error

-- `errdefs.IsNotFound` and its siblings look through wrappers, as `errors.Is` does.
abbrev pub is_not_found : Error → Bool
is_not_found not_found = true
is_not_found (wrap _ e) = is_not_found e
is_not_found _ = false

abbrev pub is_already_exists : Error → Bool
is_already_exists already_exists = true
is_already_exists (wrap _ e) = is_already_exists e
is_already_exists _ = false

abbrev pub is_failed_precondition : Error → Bool
is_failed_precondition failed_precondition = true
is_failed_precondition (wrap _ e) = is_failed_precondition e
is_failed_precondition _ = false

pub data Result {ℓ} (T : Type ℓ) : Type ℓ where
  ok : T → Result T
  err : Error → Result T

pub Result-cases {ℓ} :
    {A : Type ℓ} (r : Result A) → ((e : Error) × (r ≡ err e)) ⊎ ((a : A) × (r ≡ ok a))
Result-cases (err e) = inl (e, refl)
Result-cases (ok a) = inr (a, refl)

-- `if err != nil { return fmt.Errorf(s + ": %w", err) }`
abbrev pub context {ℓ} : {A : Type ℓ} → String → Result A → Result A
context s (ok a) = ok a
context s (err e) = err (wrap s e)

-- `if !holds { return e }`
abbrev pub guard : Bool → Error → Result (Unit {0})
guard holds e = if holds then ok tt else err e

-- `if err != nil { return err }` before the rest of the code.
infixl 5 ◌>>=◌ ◌>>◌
abbrev pub ◌>>=◌ {ℓ μ} : {T : Type ℓ} {U : Type μ} → Result T → (T → Result U) → Result U
err e >>= rest = err e
ok value >>= rest = rest value

abbrev pub ◌>>◌ {μ} : {U : Type μ} → Result (Unit {0}) → Result U → Result U
first >> rest = first >>= λ _. rest

pub >>=-eq-ok {ℓ μ} :
    {T : Type ℓ} {U : Type μ} (first : Result T) (rest : T → Result U) {u : U}
    → (first >>= rest) ≡ ok u
    → (value : T) × (first ≡ ok value) × (rest value ≡ ok u)
>>=-eq-ok (err e) rest h = cc
>>=-eq-ok (ok value) rest h = (value, refl, h)

pub context-eq-ok {ℓ} :
    {A : Type ℓ} (s : String) (m : Result A) {a : A} → context s m ≡ ok a → m ≡ ok a
context-eq-ok s (ok a) h = h
context-eq-ok s (err e) h = cc

pub guard-eq-ok {ℓ} :
    {B : Type ℓ} (b : Bool) (e : Error) (k : Result B) {x : B}
    → (guard b e >> k) ≡ ok x
    → (b ≡ true) × (k ≡ ok x)
guard-eq-ok true e k h = (refl, h)
guard-eq-ok false e k h = absurd (cc)
