-- ===== src/Common/Lists.antt =====
-- Lists measured by the native numbers, and predicates by recursion.
use Prim.Native.Nat.{ℕ, zero, suc, ◌+◌, ◌<◌}
use Prim.Native.String.{String}
use mathlib.Core.Path.{◌≡◌, refl, subst}
use mathlib.Core.Bool.{Bool, true, false, ◌&&◌, ◌||◌}
use mathlib.Core.Option.{Option, none, some}
use mathlib.Core.List.{List, [], ◌∷◌, ◌++◌}
use native.Mathlib.Omega.{arith}
use mathlib.Core.Logic.{inl, inr}
use text.Mathlib.Text.{◌==◌}
use text.Mathlib.TextEquality.{eq_iff}
use text.Mathlib.TextPositions.{eq_refl}
use kubeslice_controller.Common.Tests.{Bool-cases}

module _ {ℓ} {A : Type ℓ} where
  abbrev pub length : List A → ℕ
  length [] = 0
  length (x ∷ xs) = suc (length xs)

  -- A slice index; `none` is Go's panic on an index out of range.
  abbrev pub get_elem? : List A → ℕ → Option A
  get_elem? [] i = none
  get_elem? (x ∷ xs) zero = some x
  get_elem? (x ∷ xs) (suc i) = get_elem? xs i

  abbrev pub take : ℕ → List A → List A
  take zero xs = []
  take (suc n) [] = []
  take (suc n) (x ∷ xs) = x ∷ take n xs

  abbrev pub drop : ℕ → List A → List A
  drop zero xs = xs
  drop (suc n) [] = []
  drop (suc n) (x ∷ xs) = drop n xs

  abbrev pub any : (A → Bool) → List A → Bool
  any p [] = false
  any p (x ∷ xs) = p x || any p xs

  abbrev pub all : (A → Bool) → List A → Bool
  all p [] = true
  all p (x ∷ xs) = p x && all p xs

  abbrev pub keep_if : Bool → A → List A → List A
  keep_if true x xs = x ∷ xs
  keep_if false x xs = xs

  abbrev pub filter : (A → Bool) → List A → List A
  filter p [] = []
  filter p (x ∷ xs) = keep_if (p x) x (filter p xs)

  pub get_elem?-lt_length :
      (xs : List A) (i : ℕ) → i < length xs → (v : A) × (get_elem? xs i ≡ some v)
  get_elem?-lt_length [] i h = elim h [ ]
  get_elem?-lt_length (x ∷ xs) zero h = (x, refl)
  get_elem?-lt_length (x ∷ xs) (suc i) h = get_elem?-lt_length xs i (omega arith)

  length-append : (xs ys : List A) → length (xs ++ ys) ≡ length xs + length ys
  length-append [] ys = omega arith
  length-append (x ∷ xs) ys = omega (arith, length-append xs ys)

module _ {ℓ κ} {A : Type ℓ} (P : A → Type κ) where
  abbrev pub All : List A → Type κ
  All [] = Unit
  All (x ∷ xs) = P x × All xs

  pub All-append : (xs ys : List A) → All xs → All ys → All (xs ++ ys)
  All-append [] ys h k = k
  All-append (x ∷ xs) ys h k = (h.0, All-append xs ys h.1 k)

module _ {ℓ κ ι} {A : Type ℓ} {P : A → Type κ} {Q : A → Type ι} (f : (x : A) → P x → Q x) where
  pub All-map : (xs : List A) → All P xs → All Q xs
  All-map [] h = tt
  All-map (x ∷ xs) h = (f x h.0, All-map xs h.1)

-- Whether a text stands in a list.
abbrev pub contains : List String → String → Bool
contains [] s = false
contains (x ∷ xs) s = x == s || contains xs s

-- No text stands twice.
abbrev pub IsDistinct : List String → Type 0
IsDistinct [] = Unit
IsDistinct (x ∷ xs) = (contains xs x ≡ false) × IsDistinct xs

-- `reflect.DeepEqual` of two lists of texts; an absent list and an empty one are the same here.
infix 50 ◌==ₗ◌
abbrev pub ◌==ₗ◌ : List String → List String → Bool
[] ==ₗ [] = true
(x ∷ xs) ==ₗ (y ∷ ys) = x == y && xs ==ₗ ys
_ ==ₗ _ = false

pub All-contains {ℓ} :
    (P : String → Type ℓ) (xs : List String) (s : String) → contains xs s ≡ true → All P xs → P s
All-contains P [] s h each = cc
All-contains P (x ∷ xs) s h each = elim (Bool-cases (x == s)) [
  | inl same ↦ subst P ((eq_iff x s).0 same) each.0
  | inr other ↦ All-contains P xs s (ground (arith, other, h)) each.1
]

pub ==ₗ_refl : (xs : List String) → (xs ==ₗ xs) ≡ true
==ₗ_refl [] = refl
==ₗ_refl (x ∷ xs) = rw (eq_refl x) (==ₗ_refl xs)

pub ==ₗ_sound : (xs ys : List String) → (xs ==ₗ ys) ≡ true → xs ≡ ys
==ₗ_sound [] [] h = refl
==ₗ_sound [] (y ∷ ys) h = cc
==ₗ_sound (x ∷ xs) [] h = cc
==ₗ_sound (x ∷ xs) (y ∷ ys) h = elim (Bool-cases (x == y)) [
  | inl same ↦ ground (arith, eq_iff x y, ==ₗ_sound xs ys, same, h)
  | inr other ↦ ground (arith, other, h)
]
