-- ===== src/Python.antt =====
-- What the modules of src/ share of Python: exceptions, `raise` as a value, the values of JSON and the
-- parts of the standard library that enter as parameters.
pub mod Value
pub mod Codec
pub mod Running
use streaming_fpuna_proyecto.Base.{
  Bool, true, false, String, ◌≡◌, refl, if◌then◌else◌, ap, List, [], ◌∷◌, ◌⊎◌, inl, inr,
}
use streaming_fpuna_proyecto.Base.Int.{ℤ}

pub data ExceptionClass : Type 0 where
  type_error value_error unicode_decode_error json_decode_error : ExceptionClass
  overflow_error runtime_error recursion_error key_error os_error attribute_error : ExceptionClass
  argument_type_error keyboard_interrupt : ExceptionClass
  -- `SystemExit` with a text, and with a number
  system_exit : ExceptionClass
  exit_status : ℤ → ExceptionClass

pub record Exception : Type 0 where
  pub class : ExceptionClass
  pub message : String

-- `except ValueError`: `UnicodeDecodeError` and `JSONDecodeError` are its subclasses
abbrev pub is_value_error : ExceptionClass → Bool
is_value_error value_error = true
is_value_error unicode_decode_error = true
is_value_error json_decode_error = true
is_value_error _ = false

-- `except (TypeError, ValueError)`
abbrev pub is_type_or_value_error : ExceptionClass → Bool
is_type_or_value_error type_error = true
is_type_or_value_error c = is_value_error c

-- `except KeyboardInterrupt`
abbrev pub is_interrupt : ExceptionClass → Bool
is_interrupt keyboard_interrupt = true
is_interrupt _ = false

pub data Result {ℓ} (A : Type ℓ) : Type ℓ where
  ok : A → Result A
  raise : Exception → Result A

-- a call, and what follows with its result; an exception ends both
infixl 5 ◌>>=◌
abbrev pub ◌>>=◌ {ℓ κ} : {A : Type ℓ} {B : Type κ} → Result A → (A → Result B) → Result B
raise e >>= next = raise e
ok result >>= next = next result

abbrev pub throw {ℓ} : {A : Type ℓ} → ExceptionClass → String → Result A
throw c m = raise (record { class = c; message = m })

-- a statement, and what follows it
infixl 5 ◌>>◌
abbrev pub ◌>>◌ {ℓ} : {A : Type ℓ} → Result (Unit {0}) → Result A → Result A
raise e >> next = raise e
ok done >> next = next

-- `if failed: raise ...`
abbrev pub raise_if : Bool → ExceptionClass → String → Result (Unit {0})
raise_if failed c m = if failed then throw c m else ok tt

pub raise_if-ok : (b : Bool) (c : ExceptionClass) (m : String) → raise_if b c m ≡ ok tt → b ≡ false
raise_if-ok true c m h = cc
raise_if-ok false c m h = refl

-- `if failed: errors.append(message)`
abbrev pub error_if : Bool → String → List String
error_if failed m = if failed then m ∷ [] else []

-- to split on a call and keep the equation
pub Result-cases {ℓ} :
    {A : Type ℓ} (call : Result A)
    → ((e : Exception) × (call ≡ raise e)) ⊎ ((result : A) × (call ≡ ok result))
Result-cases (raise e) = inl (e, refl)
Result-cases (ok result) = inr (result, refl)

-- what follows a call matters only by what it does with the result
pub >>=-ext {ℓ κ} :
    {A : Type ℓ} {B : Type κ} (call : Result A) (next next' : A → Result B)
    → ((result : A) → next result ≡ next' result)
    → (call >>= next) ≡ (call >>= next')
>>=-ext (raise e) next next' same = refl
>>=-ext (ok result) next next' same = same result

-- what returned was called, and its result went on
pub >>=-eq-ok {ℓ κ} :
    {A : Type ℓ} {B : Type κ} {next : A → Result B} {answer : B} (call : Result A)
    → (call >>= next) ≡ ok answer
    → (result : A) × (call ≡ ok result) × (next result ≡ ok answer)
>>=-eq-ok (raise e) returned = cc
>>=-eq-ok (ok result) returned = (result, refl, returned)

-- a statement that returned has nothing to tell but that
pub >>-eq-ok {ℓ} :
    {A : Type ℓ} {next : Result A} {answer : A} (call : Result (Unit {0}))
    → (call >> next) ≡ ok answer
    → (call ≡ ok tt) × (next ≡ ok answer)
>>-eq-ok (raise e) returned = cc
>>-eq-ok (ok done) returned = (refl, returned)

-- the value that a call returned; the other branch is never read
abbrev value_or {ℓ} : {A : Type ℓ} → A → Result A → A
value_or d (ok a) = a
value_or d (raise e) = d

pub ok-injective {ℓ} : {A : Type ℓ} {a b : A} → ok a ≡ ok b → a ≡ b
ok-injective {a} h = ap (value_or a) h

-- two calls that returned, and what their results were put together to
pub both-eq-ok {ℓ κ} :
    {A : Type ℓ} {B : Type κ} (m n : Result A) (f : A → A → B) {b : B}
    → (m >>= λ x. n >>= λ y. ok (f x y)) ≡ ok b
    → (x : A) × (y : A) × (m ≡ ok x) × (n ≡ ok y) × (f x y ≡ b)
both-eq-ok (ok x) (ok y) f h = (x, y, refl, refl, ok-injective h)
both-eq-ok (ok x) (raise e) f h = cc
both-eq-ok (raise e) n f h = cc
