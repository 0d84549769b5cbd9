-- ===== src/Go/Accepts.antt =====
-- When a chain of checks returns no error: each of them does.
use kubeslice_controller.Common.{◌≡◌, refl, Bool, true, false, List, [], ◌∷◌, All, ◌↔◌, ◌&&◌}
use kubeslice_controller.Go.Results.{
  FieldError, Outcome, ok, err, panic, reject_if, for_each, ◌>>=◌, ◌>>◌,
}

pub reject_if_iff : (b : Bool) (e : FieldError) → (reject_if b e ≡ ok tt) ↔ (b ≡ false)
reject_if_iff true e = (λ h. cc, λ h. cc)
reject_if_iff false e = (λ h. refl, λ h. refl)

pub >>_iff : (m k : Outcome (Unit {0})) → ((m >> k) ≡ ok tt) ↔ ((m ≡ ok tt) × (k ≡ ok tt))
>>_iff (ok tt) k = (λ h. (refl, h), λ h. h.1)
>>_iff (err e) k = (λ h. cc, λ h. cc)
>>_iff panic k = (λ h. cc, λ h. cc)

-- A check followed by the rest.
pub reject_if->>_iff :
    (b : Bool) (e : FieldError) (k : Outcome (Unit {0}))
    → ((reject_if b e >> k) ≡ ok tt) ↔ ((b ≡ false) × (k ≡ ok tt))
reject_if->>_iff true e k = (λ h. cc, λ h. cc)
reject_if->>_iff false e k = (λ h. (refl, h), λ h. h.1)

pub for_each_iff {ℓ} :
    {A : Type ℓ} (xs : List A) (body : A → Outcome (Unit {0}))
    → (for_each xs body ≡ ok tt) ↔ All (λ x. body x ≡ ok tt) xs
unfolding for_each
for_each_iff [] body = (λ h. tt, λ h. refl)
for_each_iff (x ∷ xs) body = (
  λ h.
      let both = (>>_iff (body x) (for_each xs body)).0 h in
      (both.0, (for_each_iff xs body).0 both.1),
  λ h. (>>_iff (body x) (for_each xs body)).1 (h.0, (for_each_iff xs body).1 h.1),
)

-- A check that is made in one mode only.
pub reject_if-&& :
    (mode b : Bool) (e : FieldError) → mode ≡ true → reject_if (mode && b) e ≡ ok tt → b ≡ false
reject_if-&& true true e m h = cc
reject_if-&& true false e m h = refl
reject_if-&& false b e m h = cc

-- A call whose value the rest uses.
pub value_of :
    {A B : Type 0} (call : Outcome A) (rest : A → Outcome B) {last : B}
    → (call >>= rest) ≡ ok last
    → (value : A) × (call ≡ ok value) × (rest value ≡ ok last)
value_of panic rest h = cc
value_of (err failure) rest h = cc
value_of (ok value) rest h = (value, refl, h)
