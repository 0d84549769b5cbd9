-- ===== src/Util/Labels.antt =====
-- Labels and annotations (util/common.go, util/reconciliation_utility.go), and the names of objects.
use text.Mathlib.Text.{find?}
use kubeslice_controller.Common.{
  String, Bool, true, false, not, ◌&&◌, List, [], ◌∷◌, any, Option, none, some, Map, lookup, insert,
  get_or, length, ◌=?◌, ◌==◌,
}

abbrev pub is_some {ℓ} : {A : Type ℓ} → Option A → Bool
is_some none = false
is_some (some a) = true

-- partialContains
unfoldable pub partial_contains : List String → String → Bool
partial_contains parts text = any (λ part. is_some (find? text part)) parts

abbrev pub insert_unless : Bool → String → String → Map String → Map String
insert_unless true key value filtered = filtered
insert_unless false key value filtered = insert key value filtered

-- FilterLabelsAndAnnotations
unfoldable pub filter_labels_and_annotations : Map String → Map String
filter_labels_and_annotations [] = []
filter_labels_and_annotations ((key, value) ∷ rest) =
    insert_unless (partial_contains ("kubeslice-" ∷ "kubernetes.io" ∷ []) key) key value
      (filter_labels_and_annotations rest)

-- The labels of the project that a slice has not got, and whether there are any. A value that is empty is not
-- added.
abbrev is_lacking : Option String → String → Bool
is_lacking (some present) value = false
is_lacking none value = not (value == "")

unfoldable pub add_missing : Map String → Map String → Map String × Bool
add_missing [] labels = (labels, false)
add_missing ((key, value) ∷ rest) labels =
    let (added, changed) = add_missing rest labels in
    elim (is_lacking (lookup key labels) value) [
      | true ↦ (insert key value added, true)
      | false ↦ (added, changed)
    ]

-- `for key, value := range from { into[key] = value }`
unfoldable pub put_all : Map String → Map String → Map String
put_all [] into = into
put_all ((key, value) ∷ rest) into = put_all rest (insert key value into)

-- Whether a map holds the pairs of another, a missing key as the empty text.
unfoldable pub agrees : Map String → Map String → Bool
agrees [] other = true
agrees ((key, value) ∷ rest) other = get_or (lookup key other) "" == value && agrees rest other

-- CompareLabels, and CompareAnnotations, which has the same body
unfoldable pub compare_labels : Map String → Map String → Bool
unfolding agrees
compare_labels first second = length first =? length second && agrees first second
