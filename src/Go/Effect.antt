-- ===== src/Go/Effect.antt =====
-- Go functions that call the API server: they take the world and return their outcome with the world
-- that they leave, also where they fail.
use kubeslice_controller.Common.{List, [], ◌∷◌, ◌≡◌, refl}
use kubeslice_controller.Go.Results.{Error, Outcome, ok, err, panic}

abbrev pub M : Type 0 → Type 0 → Type 0
M W A = W → Outcome A × W

module _ {W A B : Type 0} where
  abbrev pub resume : Outcome A × W → (A → M W B) → Outcome B × W
  resume (ok a, w) f = f a w
  resume (err e, w) f = (err e, w)
  resume (panic, w) f = (panic, w)

  infixl 5 ◌>>=◌ ◌>>◌
  abbrev pub ◌>>=◌ : M W A → (A → M W B) → M W B
  ◌>>=◌ m f w = resume (m w) f

  abbrev pub ◌>>◌ : M W A → M W B → M W B
  m >> k = m >>= λ _. k

module _ {W A : Type 0} where
  abbrev pub pure : A → M W A
  pure a w = (ok a, w)

  abbrev pub throw : Error → M W A
  throw e w = (err e, w)

  -- A function that only reads.
  abbrev pub asks : (W → Outcome A) → M W A
  asks f w = (f w, w)

-- A `for` loop whose body may return an error or panic, which ends it.
unfoldable pub each : {W A : Type 0} → List A → (A → M W (Unit {0})) → M W (Unit {0})
each [] body = pure tt
each (x ∷ xs) body = body x >> each xs body

-- Inversion of a call that is followed by others, where all return.
pub resume-ok :
    {W A B : Type 0} (m : M W A) (f : A → M W B) {b : B} {w w' : W}
    → (m >>= f) w ≡ (ok b, w')
    → (a : A) × (v : W) × (m w ≡ (ok a, v)) × (f a v ≡ (ok b, w'))
resume-ok {W} {A} m f {b = b} {w = w} {w' = w'} h = go (m w) refl h
  where
    go :
        (r : Outcome A × W)
        → m w ≡ r
        → resume r f ≡ (ok b, w')
        → (a : A) × (v : W) × (m w ≡ (ok a, v)) × (f a v ≡ (ok b, w'))
    go (ok a, v) e k = (a, v, e, k)
    go (err x, v) e k = cc
    go (panic, v) e k = cc

-- A call that is followed by the return of a value.
pub returned :
    {W A B : Type 0} (m : M W A) (b : B) (w : W) {c : B} {w' : W}
    → (m >> pure b) w ≡ (ok c, w')
    → b ≡ c
returned {W} {A} m b w {c = c} {w' = w'} h = go (m w) h
  where
    go : (r : Outcome A × W) → resume r (λ _. pure b) ≡ (ok c, w') → b ≡ c
    go (ok a, v) k = cc
    go (err x, v) k = cc
    go (panic, v) k = cc

-- What two calls keep, the one after the other keeps, also where the first fails.
pub >>=_keeps :
    {W A B : Type 0} (P : W → Type 0) (m : M W A) (f : A → M W B) (w : W)
    → P (m w).1
    → ((a : A) (v : W) → P v → P (f a v).1)
    → P ((m >>= f) w).1
>>=_keeps {W} {A} P m f w h rest = go (m w) h
  where
    go : (r : Outcome A × W) → P r.1 → P (resume r f).1
    go (ok a, v) k = rest a v k
    go (err e, v) k = k
    go (panic, v) k = k
