-- ===== src/Util/Arrays.antt =====
-- The functions of util/common.go and util/reconciliation_utility.go on lists of texts. A Go map that
-- serves as a set is the list of its members.
pub mod Laws
use kubeslice_controller.Common.{
  String, Bool, true, false, not, List, [], ◌∷◌, ◌==◌, contains, if◌then◌else◌,
}

-- IsInSlice and ContainsString: the loop returns at the first element that is equal.
unfoldable pub contains_string : List String → String → Bool
contains_string [] element = false
contains_string (value ∷ slice) element =
    if value == element then true else contains_string slice element

-- The loop of CheckDuplicateInArray: `set` holds what has been seen.
unfoldable pub duplicates_from : List String → List String → List String
duplicates_from set [] = []
duplicates_from set (v ∷ rest) =
    let dup = duplicates_from (v ∷ set) rest in if contains set v then v ∷ dup else dup

abbrev is_empty {ℓ} : {A : Type ℓ} → List A → Bool
is_empty [] = true
is_empty (x ∷ xs) = false

unfoldable pub check_duplicate_in_array : List String → Bool × List String
unfolding duplicates_from
check_duplicate_in_array values = let dup = duplicates_from [] values in (not (is_empty dup), dup)

-- The loop of RemoveDuplicatesFromArray: `mp` holds what has been kept.
remove_duplicates_from : List String → List String → List String
remove_duplicates_from mp [] = []
remove_duplicates_from mp (v ∷ rest) =
    let skipped = remove_duplicates_from mp rest in
    let kept = v ∷ remove_duplicates_from (v ∷ mp) rest in if contains mp v then skipped else kept

unfoldable pub remove_duplicates_from_array : List String → List String
unfolding remove_duplicates_from
remove_duplicates_from_array duplicate = remove_duplicates_from [] duplicate

-- DifferenceOfArray: the elements of `a` that are not in `b`, in their order.
unfoldable pub difference_of_array : List String → List String → List String
difference_of_array [] b = []
difference_of_array (item ∷ a) b =
    let diff = difference_of_array a b in if contains b item then diff else item ∷ diff

-- RemoveElementFromArray: without the first element that is equal.
unfoldable pub remove_element_from_array : List String → String → List String
remove_element_from_array [] element = []
remove_element_from_array (v ∷ slice) element =
    if v == element then slice else v ∷ remove_element_from_array slice element
