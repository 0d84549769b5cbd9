-- ===== src/Util/Arrays/Laws.antt =====
-- What the list functions of util compute.
use kubeslice_controller.Common.{
  String, ◌≡◌, refl, ◌↔◌, false, ◌||◌, List, [], ◌∷◌, arith, eq_iff, contains, IsDistinct,
  Bool-cases, inl, inr,
}
use kubeslice_controller.Util.Arrays.{
  contains_string, duplicates_from, check_duplicate_in_array, remove_duplicates_from,
  remove_duplicates_from_array,
}

pub contains_string-contains :
    (xs : List String) (s : String) → contains_string xs s ≡ contains xs s
unfolding contains_string
contains_string-contains [] s = refl
contains_string-contains (x ∷ xs) s = ground (arith, contains_string-contains xs s)

-- No element of the second list stands in the first.
abbrev IsApart : List String → List String → Type 0
IsApart set [] = Unit
IsApart set (x ∷ xs) = (contains set x ≡ false) × IsApart set xs

IsApart-cons :
    (v : String) (set xs : List String)
    → contains xs v ≡ false
    → IsApart set xs
    → IsApart (v ∷ set) xs
IsApart-cons v set [] h k = tt
IsApart-cons v set (x ∷ xs) h k =
    (ground (arith, eq_iff v x, eq_iff x v, k.0), IsApart-cons v set xs (ground (arith, h)) k.1)

IsApart-uncons :
    (v : String) (set xs : List String)
    → IsApart (v ∷ set) xs
    → (contains xs v ≡ false) × IsApart set xs
IsApart-uncons v set [] k = (refl, tt)
IsApart-uncons v set (x ∷ xs) k =
    let rest = IsApart-uncons v set xs k.1 in
    (ground (arith, eq_iff v x, eq_iff x v, rest.0), (ground arith, rest.1))

duplicates_from-nil :
    (set xs : List String) → (duplicates_from set xs ≡ []) ↔ (IsDistinct xs × IsApart set xs)
unfolding duplicates_from
duplicates_from-nil set [] = (λ _. (tt, tt), λ _. refl)
duplicates_from-nil set (v ∷ rest) = elim (Bool-cases (contains set v)) [
  | inl seen ↦ (λ e. cc (seen, e), λ h. cc (seen, h.1.0))
  | inr new ↦ (
    λ e.
        let both = (duplicates_from-nil (v ∷ set) rest).0 (rw new at e) in
        let apart = IsApart-uncons v set rest both.1 in ((apart.0, both.0), (new, apart.1)),
    λ h.
        rw new
          ((duplicates_from-nil (v ∷ set) rest).1 (h.0.1, IsApart-cons v set rest h.0.0 h.1.1)),
  )
]

IsApart-nil : (xs : List String) → IsApart [] xs
IsApart-nil [] = tt
IsApart-nil (x ∷ xs) = (refl, IsApart-nil xs)

-- CheckDuplicateInArray answers "no duplicate" exactly for the lists in which no element stands twice.
pub check_duplicate_in_array-IsDistinct :
    (xs : List String) → ((check_duplicate_in_array xs).0 ≡ false) ↔ IsDistinct xs
unfolding check_duplicate_in_array
check_duplicate_in_array-IsDistinct xs = (
  λ h. ((duplicates_from-nil [] xs).0 (ground (arith, h))).0,
  λ h. rw ((duplicates_from-nil [] xs).1 (h, IsApart-nil xs)),
)

contains-remove_duplicates_from :
    (mp xs : List String) (s : String)
    → contains mp s || contains (remove_duplicates_from mp xs) s ≡ contains mp s || contains xs s
unfolding remove_duplicates_from
contains-remove_duplicates_from mp [] s = refl
contains-remove_duplicates_from mp (v ∷ rest) s = ground (
  arith,
  eq_iff v s,
  contains-remove_duplicates_from mp rest s,
  contains-remove_duplicates_from (v ∷ mp) rest s,
)

-- RemoveDuplicatesFromArray keeps exactly the members of its argument.
pub contains-remove_duplicates_from_array :
    (xs : List String) (s : String) → contains (remove_duplicates_from_array xs) s ≡ contains xs s
unfolding remove_duplicates_from_array
contains-remove_duplicates_from_array xs s = contains-remove_duplicates_from [] xs s

remove_duplicates_from-IsDistinct :
    (mp xs : List String)
    → IsDistinct (remove_duplicates_from mp xs) × IsApart mp (remove_duplicates_from mp xs)
unfolding remove_duplicates_from
remove_duplicates_from-IsDistinct mp [] = (tt, tt)
remove_duplicates_from-IsDistinct mp (v ∷ rest) = elim (Bool-cases (contains mp v)) [
  | inl seen ↦ rw seen (remove_duplicates_from-IsDistinct mp rest)
  | inr new ↦
      let ih = remove_duplicates_from-IsDistinct (v ∷ mp) rest in
      let apart = IsApart-uncons v mp (remove_duplicates_from (v ∷ mp) rest) ih.1 in
      rw new ((apart.0, ih.0), (new, apart.1))
]

-- RemoveDuplicatesFromArray leaves no element twice.
remove_duplicates_from_array-IsDistinct :
    (xs : List String) → IsDistinct (remove_duplicates_from_array xs)
unfolding remove_duplicates_from_array
remove_duplicates_from_array-IsDistinct xs = (remove_duplicates_from-IsDistinct [] xs).0
