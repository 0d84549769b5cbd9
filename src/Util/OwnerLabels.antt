-- ===== src/Util/OwnerLabels.antt =====
-- GetOwnerLabel of util/reconciliation_utility.go: the labels that name the owner of an object. A label's value
-- has at most 63 characters, so a longer name is cut. Names of Kubernetes objects are ASCII, so that
-- characters are bytes.
use Prim.Native.String.{count}
use text.Mathlib.TextLemmas.{cons-append, nil-append, append-nil, length-cons, length-nil}
use kubeslice_controller.Common.{
  ℕ, zero, suc, ◌+◌, ◌-◌, ◌*◌, ◌/◌, ◌≤◌, String, ◌≡◌, refl, ap, ◌∙◌, Bool-cases, inl, inr, List, [],
  ◌∷◌, Map, insert, All, arith, ltb, if◌then◌else◌,
}
use kubeslice_controller.Go.Text.{◌<>◌, itoa}

-- `s[:n]` and `s[n:]`
unfoldable take_text : ℕ → String → String
take_text zero s = ""
take_text (suc n) String.[] = ""
take_text (suc n) (String.◌∷◌ c s) = String.◌∷◌ c (take_text n s)

unfoldable drop_text : ℕ → String → String
drop_text zero s = s
drop_text (suc n) String.[] = ""
drop_text (suc n) (String.◌∷◌ c s) = drop_text n s

abbrev pub label_managed_by : String
label_managed_by = "kubeslice-controller-resource-name"

-- `LabelManagedBy+"-"+fmt.Sprint(i)`
abbrev numbered_key : ℕ → String
numbered_key i = label_managed_by <> "-" <> itoa i

-- LabelsKubeSliceController
abbrev pub labels_kube_slice_controller : Map String
labels_kube_slice_controller = ("kubeslice-resource-owner", "kubeslice-controller") ∷ []

-- The loop and the label after it: `rounds` are left, and `rest` is what is not yet in a label.
unfoldable further_labels : ℕ → ℕ → String → Map String → Map String
further_labels zero i rest label = insert (numbered_key i) rest label
further_labels (suc rounds) i rest label =
    let later =
      further_labels rounds (suc i) (drop_text 63 rest)
        (insert (numbered_key i) (take_text 63 rest) label) in
    if ltb (count rest) 63 then insert (numbered_key i) rest label else later

unfoldable pub get_owner_label : String → Map String
unfolding further_labels take_text drop_text
get_owner_label name =
    if ltb 63 (count name)
    then further_labels (count name / 63) 1 (drop_text 63 name)
        (insert label_managed_by (take_text 63 name) labels_kube_slice_controller)
    else insert label_managed_by name labels_kube_slice_controller

-- The labels with the parts of a name from the i-th on.
unfoldable pub with_parts : ℕ → List String → Map String → Map String
with_parts i [] label = label
with_parts i (part ∷ rest) label = with_parts (suc i) rest (insert (numbered_key i) part label)

abbrev pub concat_texts : List String → String
concat_texts [] = ""
concat_texts (s ∷ rest) = s <> concat_texts rest

abbrev pub Fits : String → Type 0
Fits s = count s ≤ 63

take-append-drop : (n : ℕ) (s : String) → (take_text n s <> drop_text n s) ≡ s
unfolding take_text drop_text
take-append-drop zero s = nil-append s
take-append-drop (suc n) String.[] = nil-append ""
take-append-drop (suc n) (String.◌∷◌ c s) =
    cons-append c (take_text n s) (drop_text n s) ∙ ap (String.◌∷◌ c) (take-append-drop n s)

count-take_text : (n : ℕ) (s : String) → count (take_text n s) ≤ n
unfolding take_text
count-take_text zero s = rw length-nil (omega arith)
count-take_text (suc n) String.[] = rw length-nil (omega arith)
count-take_text (suc n) (String.◌∷◌ c s) =
    rw (length-cons c (take_text n s)) (omega (arith, count-take_text n s))

count-drop_text : (n : ℕ) (s : String) → count (drop_text n s) ≡ count s - n
unfolding drop_text
count-drop_text zero s = omega arith
count-drop_text (suc n) String.[] = rw length-nil (omega arith)
count-drop_text (suc n) (String.◌∷◌ c s) = rw (length-cons c s) (omega (arith, count-drop_text n s))

-- The parts of what is left, where enough rounds are.
further_labels_lem :
    (rounds i : ℕ) (rest : String) (label : Map String)
    → count rest ≤ 63 * rounds + 62
    → (parts : List String) × (further_labels rounds i rest label ≡ with_parts i parts label)
      × (concat_texts parts ≡ rest)
      × All Fits parts
unfolding further_labels with_parts
further_labels_lem zero i rest label h = (rest ∷ [], refl, append-nil rest, (omega arith, tt))
further_labels_lem (suc rounds) i rest label h = elim (Bool-cases (ltb (count rest) 63)) [
  | inl last ↦ (rest ∷ [], rw last refl, append-nil rest, (ground (arith, last), tt))
  | inr more ↦
      let (parts, e, whole, fits) =
        further_labels_lem rounds (suc i) (drop_text 63 rest)
          (insert (numbered_key i) (take_text 63 rest) label)
          (ground (arith, more, count-drop_text 63 rest)) in
      (
        take_text 63 rest ∷ parts,
        rw more e,
        ap (λ s. take_text 63 rest <> s) whole ∙ take-append-drop 63 rest,
        (count-take_text 63 rest, fits),
      )
]

-- The labels that GetOwnerLabel adds to those of the controller are a first part of the name, under
-- kubeslice-controller-resource-name, and further parts, under that key with the numbers 1, 2, … behind it.
-- Each part has at most 63 characters, and together they spell the name.
pub get_owner_label_lem :
    (name : String)
    → (first : String) × (parts : List String) × (get_owner_label name
        ≡ with_parts 1 parts (insert label_managed_by first labels_kube_slice_controller))
      × (concat_texts (first ∷ parts) ≡ name)
      × All Fits (first ∷ parts)
unfolding get_owner_label
get_owner_label_lem name = elim (Bool-cases (ltb 63 (count name))) [
  | inr short ↦
      (name, [], rw short (unfold with_parts in refl), append-nil name, (ground (arith, short), tt))
  | inl long ↦
      let (parts, e, whole, fits) =
        further_labels_lem (count name / 63) 1 (drop_text 63 name)
          (insert label_managed_by (take_text 63 name) labels_kube_slice_controller)
          (omega (arith, count-drop_text 63 name)) in
      (
        take_text 63 name,
        parts,
        rw long e,
        ap (λ s. take_text 63 name <> s) whole ∙ take-append-drop 63 name,
        (count-take_text 63 name, fits),
      )
]
