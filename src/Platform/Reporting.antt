-- ===== src/Platform/Reporting.antt =====
-- Calls of the API server that the services report: an event is recorded and a counter raised after a
-- success, and another event and counter after a failure, before the error is returned.
use kubeslice_controller.Common.{
  String, List, [], ◌∷◌, ◌≡◌, refl, Bool, true, false, filter, keep_if, Option, none, some,
}
use kubeslice_controller.Go.{already_exists, api, ApiError, Outcome, ok, err, panic}
use kubeslice_controller.Go.Effect.{M, pure, each, resume}
use kubeslice_controller.Resources.Meta.{ObjectMeta}
use kubeslice_controller.Platform.{Platform, Resource, answer, create_resource, delete_resource}

-- An event's name with the action that the counter is raised for.
pub record Notice : Type 0 where
  pub event : String
  pub action : String

module _ {W : Type 0} (platform : Platform W) (kind : String) where
  abbrev pub notify : Notice → String → W → W
  notify notice name w =
      platform.record_metric
        (record {
          action = notice.action;
          event = notice.event;
          object_name = name;
          object_kind = kind;
        })
        (platform.record_event notice.event name w)

  abbrev pub reported :
      (done failed : Notice) → String → Outcome (Unit {0}) × W → Outcome (Unit {0}) × W
  reported done failed name (ok u, w) = (ok tt, notify done name w)
  reported done failed name (err e, w) = (err e, notify failed name w)
  reported done failed name (panic, w) = (panic, w)

  -- The same where an object that exists already is no error.
  abbrev pub tolerated :
      (done failed : Notice) → String → Outcome (Unit {0}) × W → Outcome (Unit {0}) × W
  tolerated done failed name (ok u, w) = (ok tt, notify done name w)
  tolerated done failed name (err (api already_exists), w) =
      (ok tt, notify done name (notify failed name w))
  tolerated done failed name (err e, w) = (err e, notify failed name w)
  tolerated done failed name (panic, w) = (panic, w)

  module _ {A : Type 0} (resource : Resource W A) (metadata : A → ObjectMeta) where
    unfoldable pub create_reported : (done failed : Notice) → A → M W (Unit {0})
    create_reported done failed object w =
        reported done failed (metadata object).name (create_resource resource object w)

    unfoldable pub delete_reported : (done failed : Notice) → A → M W (Unit {0})
    delete_reported done failed object w =
        reported done failed (metadata object).name (delete_resource resource object w)

    -- What holds after the creation and after each notice holds after a creation that is reported.
    pub create_reported_keeps :
        (P : W → Type 0) (done failed : Notice) (object : A) (w : W)
        → ((notice : Notice) (name : String) (v : W) → P v → P (notify notice name v))
        → P (resource.create object w).1
        → P (create_reported done failed object w).1
    unfolding create_reported create_resource
    create_reported_keeps P done failed object w notices h = go (resource.create object w) h
      where
        go :
            (r : Option ApiError × W)
            → P r.1
            → P (reported done failed (metadata object).name (answer resource r)).1
        go (none, v) k = notices done _ v k
        go (some e, v) k = notices failed _ v k

    -- What holds after the deletion and after each notice holds after a deletion that is reported.
    pub delete_reported_keeps :
        (P : W → Type 0) (done failed : Notice) (object : A) (w : W)
        → ((notice : Notice) (name : String) (v : W) → P v → P (notify notice name v))
        → P (resource.delete object w).1
        → P (delete_reported done failed object w).1
    unfolding delete_reported delete_resource
    delete_reported_keeps P done failed object w notices h = go (resource.delete object w) h
      where
        go :
            (r : Option ApiError × W)
            → P r.1
            → P (reported done failed (metadata object).name (answer resource r)).1
        go (none, v) k = notices done _ v k
        go (some e, v) k = notices failed _ v k

-- `if test { … }`
abbrev when_true : {W : Type 0} → Bool → M W (Unit {0}) → M W (Unit {0})
when_true true call = call
when_true false call = pure tt

module _ {W A : Type 0} (p : A → Bool) (body : A → M W (Unit {0})) where
  -- The body of a loop that passes over some elements.
  abbrev pub where_true : A → M W (Unit {0})
  where_true x = when_true (p x) (body x)

  -- Such a loop is the loop over the others.
  pub each-filter : (xs : List A) (w : W) → each xs where_true w ≡ each (filter p xs) body w
  unfolding each
  each-filter [] w = refl
  each-filter (x ∷ xs) w = go (each-filter xs) (p x)
    where
      after :
          ((v : W) → each xs where_true v ≡ each (filter p xs) body v)
          → (r : Outcome (Unit {0}) × W)
          → resume r (λ _. each xs where_true) ≡ resume r (λ _. each (filter p xs) body)
      after rest (ok u, v) = rest v
      after rest (err e, v) = refl
      after rest (panic, v) = refl

      go :
          ((v : W) → each xs where_true v ≡ each (filter p xs) body v)
          → (b : Bool)
          → resume (when_true b (body x) w) (λ _. each xs where_true)
            ≡ each (keep_if b x (filter p xs)) body w
      go rest true = after rest (body x w)
      go rest false = rest w

-- What each round of a loop keeps, the loop keeps, also where it ends with an error.
pub each_keeps :
    {W A : Type 0} (P : W → Type 0) (body : A → M W (Unit {0}))
    → ((x : A) (w : W) → P w → P (body x w).1)
    → (xs : List A) (w : W) → P w
    → P (each xs body w).1
unfolding each
each_keeps P body round [] w h = h
each_keeps {W} {A} P body round (x ∷ xs) w h =
    go (each_keeps P body round xs) (body x w) (round x w h)
  where
    go :
        ((v : W) → P v → P (each xs body v).1)
        → (r : Outcome (Unit {0}) × W) → P r.1
        → P (resume r (λ _. each xs body)).1
    go later (ok u, v) k = later v k
    go later (err e, v) k = k
    go later (panic, v) k = k
