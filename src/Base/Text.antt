-- ===== src/Base/Text.antt =====
-- Texts as lists of ASCII code points, with the Python operations that the program applies to
-- them: `split`, `int(s)`, `str(n)` and zero-padded formatting.
pub mod Digits
pub mod Fixed
use Prim.Native.Char.{code}
use Prim.Native.String.{String}
use fk_cesis_mms.Base.{
  ℕ, zero, suc, ◌+◌, ◌-◌, ◌*◌, ◌/◌, ◌%◌, Bool, true, false, ◌&&◌, ◌||◌, Option, none, some, List,
  [], ◌∷◌, ◌++◌, ltb, leb, ◌==◌, if◌then◌else◌, length, replicate,
}
use fk_cesis_mms.Base.Int.{ℤ, pos, negsuc}

abbrev pub Text : Type 0
Text = List ℕ

abbrev pub codes : String → Text
codes String.[] = []
codes (String.◌∷◌ c s) = code c ∷ codes s

-- `not s`
abbrev pub is_blank : Text → Bool
is_blank [] = true
is_blank (c ∷ s) = false

abbrev pub text_eq : Text → Text → Bool
text_eq [] [] = true
text_eq (c ∷ s) (d ∷ t) = c == d && text_eq s t
text_eq _ _ = false

-- `s < t`, in the order of the code points.
abbrev pub text_lt : Text → Text → Bool
text_lt s [] = false
text_lt [] (d ∷ t) = true
text_lt (c ∷ s) (d ∷ t) = ltb c d || (c == d && text_lt s t)

-- `s.split(sep, 1)`, when `sep` occurs in `s`.
abbrev pub split_once : ℕ → Text → Option (Text × Text)
split_once sep [] = none
split_once sep (c ∷ s) =
    let rest = split_once sep s in
    if c == sep
    then some ([], s)
    else (elim rest [ none ↦ none | some (before, after) ↦ some (c ∷ before, after) ])

-- `s.split(sep)[0]`
abbrev pub before_first : ℕ → Text → Text
before_first sep [] = []
before_first sep (c ∷ s) = let rest = before_first sep s in if c == sep then [] else c ∷ rest

-- `s.split(sep)`
abbrev pub split_on : ℕ → Text → List Text
split_on sep [] = [] ∷ []
split_on sep (c ∷ s) =
    let rest = split_on sep s in
    if c == sep then [] ∷ rest else (elim rest [ [] ↦ (c ∷ []) ∷ [] | w ∷ ws ↦ (c ∷ w) ∷ ws ])

-- `s.rsplit(sep, 1)[1]`; `none` is the IndexError.
abbrev pub after_last : ℕ → Text → Option Text
after_last sep [] = none
after_last sep (c ∷ s) = elim (after_last sep s) [
  | some after ↦ some after
  | none ↦ if c == sep then some s else none
]

abbrev pub is_digit : ℕ → Bool
is_digit c = leb b'0' c && leb c b'9'

-- The whitespace that `int` strips from an ASCII text: tab to carriage return, and the space.
abbrev pub is_space : ℕ → Bool
is_space c = (leb 9 c && leb c 13) || c == 32

abbrev pub drop_spaces : Text → Text
drop_spaces [] = []
drop_spaces (c ∷ s) = let rest = drop_spaces s in if is_space c then rest else c ∷ s

abbrev pub drop_end_spaces : Text → Text
drop_end_spaces [] = []
drop_end_spaces (c ∷ s) = elim (drop_end_spaces s) [
  | [] ↦ if is_space c then [] else c ∷ []
  | d ∷ t ↦ c ∷ d ∷ t
]

-- Digits with single underscores between them. `after_digit` says what stood before.
unfoldable pub read_digits : Bool → ℕ → Text → Option ℕ
read_digits after_digit value [] = if after_digit then some value else none
read_digits after_digit value (c ∷ s) =
    let rest = read_digits (is_digit c) (if is_digit c then value * 10 + (c - b'0') else value) s in
    if is_digit c || (after_digit && c == b'_') then rest else none

unfoldable pub read_signed : Text → Option ℤ
unfolding read_digits
read_signed [] = none
read_signed (c ∷ s) =
    if c == b'-'
    then (elim (read_digits false 0 s) [
      | none ↦ none
      | some n ↦ elim n [ zero ↦ some (pos 0) | suc k ↦ some (negsuc k) ]
    ])
    else (elim (if c == b'+' then read_digits false 0 s else read_digits false 0 (c ∷ s)) [
      | none ↦ none
      | some n ↦ some (pos n)
    ])

-- `int(s)`; `none` is the ValueError.
unfoldable pub int : Text → Option ℤ
unfolding read_signed
int s = read_signed (drop_end_spaces (drop_spaces s))

-- The decimal digits of a number, written before `acc`. The fuel `suc n` is enough.
unfoldable pub digits_from : ℕ → ℕ → Text → Text
digits_from zero n acc = acc
digits_from (suc fuel) n acc =
    let rest = digits_from fuel (n / 10) ((b'0' + n % 10) ∷ acc) in
    if ltb n 10 then (b'0' + n) ∷ acc else rest

-- `str(n)`
unfoldable pub decimal : ℕ → Text
unfolding digits_from
decimal n = digits_from (suc n) n []

-- `f"{n:0{width}d}"`
unfoldable pub padded : ℕ → ℕ → Text
unfolding decimal
padded width n = replicate (width - length (decimal n)) b'0' ++ decimal n
