-- ===== src/Base/Text/Digits.antt =====
-- Reading back what `decimal` and `padded` write, and how the texts of numbers compare.
use fk_cesis_mms.Base.{
  ℕ, zero, suc, ◌+◌, ◌-◌, ◌*◌, ◌/◌, ◌%◌, ◌^◌, ◌≤◌, ◌<◌, ◌≡◌, refl, ap, ◌∙◌, Bool, true, false, some,
  [], ◌∷◌, ◌++◌, arith, All, length, replicate, length-append, length-replicate,
}
use native.Mathlib.Decide.{dec_lt}
use native.Mathlib.Nat.{pow-suc}
use fk_cesis_mms.Base.Int.{pos}
use fk_cesis_mms.Base.Text.{
  Text, before_first, is_digit, drop_spaces, drop_end_spaces, read_digits, read_signed, int,
  digits_from, decimal, padded,
}

digits_from-one :
    (fuel n : ℕ) (acc : Text) → n < fuel → n < 10 → digits_from fuel n acc ≡ (b'0' + n) ∷ acc
unfolding digits_from
digits_from-one zero n acc h small = elim h [ ]
digits_from-one (suc fuel) n acc h small = ground arith

digits_from-more :
    (fuel n : ℕ) (acc : Text)
    → n < suc fuel
    → 10 ≤ n
    → digits_from (suc fuel) n acc ≡ digits_from fuel (n / 10) ((b'0' + n % 10) ∷ acc)
unfolding digits_from
digits_from-more fuel n acc h large = ground arith

pub read_digits-digit :
    (after : Bool) (value d : ℕ) (acc : Text)
    → d < 10
    → read_digits after value ((b'0' + d) ∷ acc) ≡ read_digits true (value * 10 + d) acc
unfolding read_digits
read_digits-digit after value d acc h = ground arith

-- What follows the digits is read with the number as the value so far.
read_digits-digits_from :
    (fuel n : ℕ) (after : Bool) (acc : Text)
    → n < fuel
    → read_digits after 0 (digits_from fuel n acc) ≡ read_digits true n acc
read_digits-digits_from zero n after acc h = elim h [ ]
read_digits-digits_from (suc fuel) n after acc h = elim (dec_lt n 10) [
  | yes small ↦
      rw (digits_from-one (suc fuel) n acc h small)
        (read_digits-digit after 0 n acc small ∙ ap (λ m. read_digits true m acc) (omega arith))
  | no large ↦ rw (digits_from-more fuel n acc h (omega arith)) (
      read_digits-digits_from fuel (n / 10) after ((b'0' + n % 10) ∷ acc) (omega arith)
      ∙ read_digits-digit true (n / 10) (n % 10) acc (omega arith)
      ∙ ap (λ m. read_digits true m acc) (omega arith))
]

read_digits-decimal : (after : Bool) (n : ℕ) → read_digits after 0 (decimal n) ≡ some n
unfolding decimal read_digits
read_digits-decimal after n = read_digits-digits_from (suc n) n after [] (omega arith)

read_digits-zeros :
    (k : ℕ) (after : Bool) (n : ℕ) → read_digits after 0 (replicate k b'0' ++ decimal n) ≡ some n
read_digits-zeros zero after n = read_digits-decimal after n
read_digits-zeros (suc k) after n =
    read_digits-digit after 0 0 (replicate k b'0' ++ decimal n) (omega arith)
    ∙ read_digits-zeros k true n

-- Texts of digits alone.
abbrev pub AreDigits : Text → Type 0
AreDigits = All (λ c. is_digit c ≡ true)

digits_from-AreDigits :
    (fuel n : ℕ) (acc : Text) → AreDigits acc → AreDigits (digits_from fuel n acc)
unfolding digits_from
digits_from-AreDigits zero n acc h = h
digits_from-AreDigits (suc fuel) n acc h =
    ground (arith, digits_from-AreDigits fuel (n / 10) ((b'0' + n % 10) ∷ acc))

replicate-AreDigits : (k : ℕ) (s : Text) → AreDigits s → AreDigits (replicate k b'0' ++ s)
replicate-AreDigits zero s h = h
replicate-AreDigits (suc k) s h = (refl, replicate-AreDigits k s h)

pub padded-AreDigits : (width n : ℕ) → AreDigits (padded width n)
unfolding padded decimal
padded-AreDigits width n =
    replicate-AreDigits (width - length (decimal n)) (decimal n)
      (digits_from-AreDigits (suc n) n [] tt)

drop_end_spaces-AreDigits : (s : Text) → AreDigits s → drop_end_spaces s ≡ s
drop_end_spaces-AreDigits [] h = refl
drop_end_spaces-AreDigits (c ∷ []) h = ground arith
drop_end_spaces-AreDigits (c ∷ d ∷ s) h = rw (drop_end_spaces-AreDigits (d ∷ s) h.1)

int-AreDigits :
    (c : ℕ) (s : Text) {n : ℕ}
    → AreDigits (c ∷ s)
    → read_digits false 0 (c ∷ s) ≡ some n
    → int (c ∷ s) ≡ some (pos n)
unfolding int read_signed
int-AreDigits c s h e =
    let front : drop_spaces (c ∷ s) ≡ c ∷ s = ground arith in
    rw (front, drop_end_spaces-AreDigits (c ∷ s) h) (ground arith)

int-digits :
    (s : Text) {n : ℕ} → AreDigits s → read_digits false 0 s ≡ some n → int s ≡ some (pos n)
unfolding read_digits
int-digits [] h e = cc
int-digits (c ∷ s) h e = int-AreDigits c s h e

pub int-padded : (width n : ℕ) → int (padded width n) ≡ some (pos n)
unfolding padded
int-padded width n =
    int-digits (padded width n) (padded-AreDigits width n)
      (read_digits-zeros (width - length (decimal n)) false n)

-- A part of digits is read back.
pub before_first-append : (s t : Text) → AreDigits s → before_first b'-' (s ++ b'-' ∷ t) ≡ s
before_first-append [] t h = refl
before_first-append (c ∷ s) t (h, hs) = rw (before_first-append s t hs) (ground arith)

pub decimal-AreDigits : (n : ℕ) → AreDigits (decimal n)
unfolding decimal
decimal-AreDigits n = digits_from-AreDigits (suc n) n [] tt

pub int-decimal : (n : ℕ) → int (decimal n) ≡ some (pos n)
int-decimal n = int-digits (decimal n) (decimal-AreDigits n) (read_digits-decimal false n)

length-digits_from :
    (k fuel n : ℕ) (acc : Text)
    → n < fuel
    → n < 10 ^ suc k
    → length (digits_from fuel n acc) ≤ suc k + length acc
length-digits_from k zero n acc h small = elim h [ ]
length-digits_from zero (suc fuel) n acc h small =
    rw (digits_from-one (suc fuel) n acc h (omega arith)) (omega arith)
length-digits_from (suc k) (suc fuel) n acc h small = elim (dec_lt n 10) [
  | yes one ↦ rw (digits_from-one (suc fuel) n acc h one) (omega arith)
  | no more ↦
      let bound : n < 10 * 10 ^ suc k = omega (arith, pow-suc 10 (suc k)) in
      rw (digits_from-more fuel n acc h (omega arith)) (
        omega (
          arith,
          length-digits_from k fuel (n / 10) ((b'0' + n % 10) ∷ acc) (omega arith) (omega arith),
        ))
]

-- A number below 10 ^ width is written in exactly `width` digits.
pub length-padded : (k n : ℕ) → n < 10 ^ suc k → length (padded (suc k) n) ≡ suc k
unfolding padded decimal
length-padded k n small =
    rw (length-append (replicate (suc k - length (decimal n)) b'0') (decimal n)) (
      rw (length-replicate {A = ℕ} (suc k - length (decimal n)) b'0')
        (omega (arith, length-digits_from k (suc n) n [] (omega arith) small)))
