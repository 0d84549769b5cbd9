-- ===== src/Go/Text.antt =====
-- The parts of Go's `strings`, `strconv` and `fmt` that the program uses, over native texts.
-- A Go string is a sequence of bytes; here it is the text that they spell.
use Prim.Native.Char.{Char, code}
use Prim.Native.String.{count, ◌++◌ as ◌+++◌}
use text.Mathlib.Text.{starts_with}
use text.Mathlib.TextLemmas.{cons≢nil}
use kubeslice_controller.Common.{
  ℕ, zero, suc, ◌+◌, ◌-◌, ◌*◌, ◌/◌, ◌%◌, ◌<◌, String, ◌≡◌, ◌≢◌, refl, List, [], ◌∷◌, arith, ltb,
  leb, ◌&&◌, get_elem?, get_or, Option, none, some, Bool-cases, if◌then◌else◌, inl, inr,
}

-- `fmt.Sprintf` with plain `%s` verbs, and `+` on strings.
infixr 65 ◌<>◌
abbrev pub ◌<>◌ : String → String → String
s <> t = s +++ t

abbrev one : Char → String
one c = String.◌∷◌ c String.[]

-- The decimal digit of a number below ten.
abbrev digit : ℕ → Char
digit d =
    get_or (get_elem? {A = Char} ("0" ∷ "1" ∷ "2" ∷ "3" ∷ "4" ∷ "5" ∷ "6" ∷ "7" ∷ "8" ∷ "9" ∷ []) d)
      "9"

-- `strings.ToLower` of a text of ASCII characters, as names of Kubernetes objects are.
abbrev small_letter : ℕ → Option Char
small_letter = get_elem? {A = Char} (
    "a" ∷ "b" ∷ "c" ∷ "d" ∷ "e" ∷ "f" ∷ "g" ∷ "h" ∷ "i" ∷ "j" ∷ "k" ∷ "l" ∷ "m" ∷ "n" ∷ "o" ∷ "p"
    ∷ "q" ∷ "r" ∷ "s" ∷ "t" ∷ "u" ∷ "v" ∷ "w" ∷ "x" ∷ "y" ∷ "z" ∷ [])

abbrev lower_char : Char → Char
lower_char c = if leb b'A' (code c) then get_or (small_letter (code c - b'A')) c else c

unfoldable pub to_lower : String → String
to_lower String.[] = ""
to_lower (String.◌∷◌ c s) = String.◌∷◌ (lower_char c) (to_lower s)

to_lower_run : to_lower "West-1" ≡ "west-1"
unfolding to_lower
to_lower_run = refl

-- `strconv.Itoa` of a number that is not negative. Each round takes the last digit off.
itoa_from : ℕ → ℕ → String → String
itoa_from zero n out = out
itoa_from (suc f) n out =
    let rest = itoa_from f (n / 10) (String.◌∷◌ (digit (n % 10)) out) in
    if ltb n 10 then String.◌∷◌ (digit n) out else rest

unfoldable pub itoa : ℕ → String
unfolding itoa_from
itoa n = itoa_from (suc n) n ""

-- Any fuel above the number gives the same text, so that of `itoa` is enough.
itoa_from-fuel : (f g n : ℕ) (out : String) → n < f → n < g → itoa_from f n out ≡ itoa_from g n out
unfolding itoa_from
itoa_from-fuel zero g n out h k = elim h [ ]
itoa_from-fuel (suc f) zero n out h k = elim k [ ]
itoa_from-fuel (suc f) (suc g) n out h k =
    ground (arith, itoa_from-fuel f g (n / 10) (String.◌∷◌ (digit (n % 10)) out))

itoa_from-ne-nil : (f n : ℕ) (c : Char) (s : String) → itoa_from f n (String.◌∷◌ c s) ≢ ""
unfolding itoa_from
itoa_from-ne-nil zero n c s h = cons≢nil h
itoa_from-ne-nil (suc f) n c s h = elim (Bool-cases (ltb n 10)) [
  | inl last ↦ cons≢nil (rw last at h)
  | inr more ↦ itoa_from-ne-nil f (n / 10) (digit (n % 10)) (String.◌∷◌ c s) (rw more at h)
]

-- A printed number is not the empty text.
pub itoa-ne-nil : (n : ℕ) → itoa n ≢ ""
unfolding itoa
itoa-ne-nil n h = elim (Bool-cases (ltb n 10)) [
  | inl last ↦ cons≢nil (rw last at h)
  | inr more ↦ itoa_from-ne-nil n (n / 10) (digit (n % 10)) "" (rw more at h)
]

-- `strconv.Atoi` of a text with no sign; the program drops the error, so a text that is no number is 0.
atoi_from : ℕ → String → Option ℕ
atoi_from n String.[] = some n
atoi_from n (String.◌∷◌ c s) =
    if leb b'0' (code c) && leb (code c) b'9' then atoi_from (n * 10 + (code c - b'0')) s else none

unfoldable pub atoi : String → ℕ
unfolding atoi_from
atoi String.[] = 0
atoi (String.◌∷◌ c s) = get_or (atoi_from 0 (String.◌∷◌ c s)) 0

-- `strings.Split` at a separator that is not empty. `skip` counts the characters of a separator that
-- are still to be passed over.
split_from : String → ℕ → String → String → List String
split_from sep skip cur String.[] = cur ∷ []
split_from sep zero cur (String.◌∷◌ c s) =
    let closed = cur ∷ split_from sep (count sep - 1) "" s in
    let longer = split_from sep zero (cur <> one c) s in
    if starts_with (String.◌∷◌ c s) sep then closed else longer
split_from sep (suc skip) cur (String.◌∷◌ c s) = split_from sep skip cur s

unfoldable pub split : String → String → List String
unfolding split_from
split s sep = split_from sep zero "" s

split_from_head :
    (sep : String) (skip : ℕ) (cur s : String)
    → (x : String) × (get_elem? (split_from sep skip cur s) 0 ≡ some x)
unfolding split_from
split_from_head sep skip cur String.[] = (cur, refl)
split_from_head sep (suc skip) cur (String.◌∷◌ c s) = split_from_head sep skip cur s
split_from_head sep zero cur (String.◌∷◌ c s) =
    elim (Bool-cases (starts_with (String.◌∷◌ c s) sep)) [
      | inl here ↦ (cur, rw here refl)
      | inr not_here ↦ let (x, e) = split_from_head sep zero (cur <> one c) s in (x, rw not_here e)
    ]

-- A text that is split has a first part.
pub split_head : (s sep : String) → (x : String) × (get_elem? (split s sep) 0 ≡ some x)
unfolding split
split_head s sep = split_from_head sep zero "" s

-- `strings.Join`
unfoldable pub join : List String → String → String
join [] sep = ""
join (x ∷ []) sep = x
join (x ∷ y ∷ xs) sep = x <> sep <> join (y ∷ xs) sep

-- `strings.Replace(s, old, "", -1)`
unfoldable pub remove_all : String → String → String
unfolding split join
remove_all s old = join (split s old) ""
