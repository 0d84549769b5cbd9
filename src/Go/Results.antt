-- ===== src/Go/Results.antt =====
-- Results of Go functions: a value, an error, or a panic.
use kubeslice_controller.Common.{String, ◌≡◌, Bool, true, false, List, Option, none, some}

-- `field.Error` of k8s.io/apimachinery, with its type and path; the bad value is left out.
pub data FieldError : Type 0 where
  required invalid forbidden duplicate not_found internal : (path detail : String) → FieldError

-- The errors of the API server that the program tells apart.
pub data ApiError : Type 0 where
  already_exists : ApiError
  other : String → ApiError

pub data Error : Type 0 where
  field : FieldError → Error
  api : ApiError → Error
  message : String → Error

pub data Outcome {ℓ} (A : Type ℓ) : Type ℓ where
  ok : A → Outcome A
  err : Error → Outcome A
  panic : Outcome A

-- A statement and those after it: an error and a panic end the function.
infixl 5 ◌>>=◌ ◌>>◌
abbrev pub ◌>>=◌ {ℓ κ} : {A : Type ℓ} {B : Type κ} → Outcome A → (A → Outcome B) → Outcome B
panic >>= rest = panic
err failure >>= rest = err failure
ok value >>= rest = rest value

-- The same where the statement has no value.
abbrev pub ◌>>◌ {κ} : {B : Type κ} → Outcome (Unit {0}) → Outcome B → Outcome B
check >> rest = check >>= λ _. rest

-- `if test { return err }`
abbrev pub reject_if : Bool → FieldError → Outcome (Unit {0})
reject_if true e = err (field e)
reject_if false e = ok tt

-- `*p`, `xs[i]`: a nil pointer or an index out of range panics.
abbrev pub deref {ℓ} : {A : Type ℓ} → Option A → Outcome A
deref none = panic
deref (some a) = ok a

-- A `for` loop whose body may return early.
unfoldable pub for_each {ℓ} : {A : Type ℓ} → List A → (A → Outcome (Unit {0})) → Outcome (Unit {0})
for_each List.[] body = ok tt
for_each (List.◌∷◌ x xs) body = body x >> for_each xs body

pub ok-injective {ℓ} : {A : Type ℓ} {a b : A} → ok a ≡ ok b → a ≡ b
ok-injective h = cc
