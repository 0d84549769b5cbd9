-- ===== src/AccessControl/Obsolete/Entries.antt =====
-- The map of entries of the clean-up as a function of its key (service/access_control_service.go).
use kubeslice_controller.Common.{
  String, ◌≡◌, refl, sym, ap, ◌∙◌, Bool, true, false, ◌&&◌, List, [], ◌∷◌, Option, none, some, Map,
  lookup, insert, lookup-insert, contains, if◌then◌else◌, ◌==◌, arith,
}
use kubeslice_controller.Resources.Meta.{ObjectMeta}
use kubeslice_controller.AccessControl.Obsolete.{
  Activity, active, inactive, has_access, enter_if, enter, mark, activities,
}

module _ {A : Type 0} where
  lookup-mark :
      (expected : List String) (entries : Map (Activity A)) (key : String)
      → lookup key (mark expected entries)
        ≡ (if contains expected key then some active else lookup key entries)
  unfolding mark
  lookup-mark [] entries key = refl
  lookup-mark (name ∷ rest) entries key = ground (
    arith,
    lookup-mark rest (insert name active entries) key,
    lookup-insert name key active entries,
  )

  module _ (metadata : A → ObjectMeta) (access_type : String) where
    abbrev pub is_named : String → A → Bool
    is_named key object = has_access access_type (metadata object) && (metadata object).name == key

    abbrev or_first : Option A → Bool → A → Option A
    or_first (some later) b object = some later
    or_first none true object = some object
    or_first none false object = none

    -- The last of the objects with the access type and a name.
    unfoldable pub last_named : String → List A → Option A
    last_named key [] = none
    last_named key (object ∷ rest) = or_first (last_named key rest) (is_named key object) object

    abbrev pub entry_or : Option A → Option (Activity A) → Option (Activity A)
    entry_or (some object) entry = some (inactive object)
    entry_or none entry = entry

    lookup-enter :
        (objects : List A) (entries : Map (Activity A)) (key : String)
        → lookup key (enter metadata access_type objects entries)
          ≡ entry_or (last_named key objects) (lookup key entries)
    unfolding enter last_named
    lookup-enter [] entries key = refl
    lookup-enter (object ∷ rest) entries key =
        lookup-enter rest
          (enter_if metadata access_type (has_access access_type (metadata object)) object entries)
          key
        ∙ go (last_named key rest) (has_access access_type (metadata object))
      where
        go :
            (later : Option A) (b : Bool)
            → entry_or later (lookup key (enter_if metadata access_type b object entries))
              ≡ entry_or
                  (or_first later (b && (metadata object).name == key) object)
                  (lookup key entries)
        go (some other) b = refl
        go none false = refl
        go none true =
            lookup-insert (metadata object).name key (inactive object) entries
            ∙ by_name ((metadata object).name == key)
          where
            by_name :
                (b : Bool)
                → (if b then some (inactive object) else lookup key entries)
                  ≡ entry_or (or_first none b object) (lookup key entries)
            by_name true = refl
            by_name false = refl

    -- The map by which the obsolete objects are found: a name that is expected is active, and another is
    -- inactive with the last object of the list that has the access type and this name, or missing where
    -- there is none.
    pub lookup-activities :
        (expected : List String) (objects : List A) (key : String)
        → lookup key (activities metadata access_type expected objects)
          ≡ (if contains expected key then some active else entry_or (last_named key objects) none)
    unfolding activities lookup
    lookup-activities expected objects key =
        lookup-mark expected (enter metadata access_type objects []) key
        ∙ ap (λ entry. if contains expected key then some active else entry)
            (lookup-enter objects [] key)

    -- Such an object has the access type and the name.
    pub last_named-is_named :
        (key : String) (objects : List A) (object : A)
        → last_named key objects ≡ some object
        → is_named key object ≡ true
    unfolding last_named
    last_named-is_named key [] object h = cc
    last_named-is_named key (other ∷ rest) object h =
        go (last_named key rest) (is_named key other) refl (last_named-is_named key rest object) h
      where
        go :
            (later : Option A) (b : Bool)
            → is_named key other ≡ b
            → (later ≡ some object → is_named key object ≡ true)
            → or_first later b other ≡ some object
            → is_named key object ≡ true
        go (some x) b e rec k = rec k
        go none true e rec k = let same : other ≡ object = cc in ap (is_named key) (sym same) ∙ e
        go none false e rec k = cc
