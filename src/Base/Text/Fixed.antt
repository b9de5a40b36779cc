-- ===== src/Base/Text/Fixed.antt =====
-- The digits of a number below 100 or below 10 000, padded to two or four places.
use fk_cesis_mms.Base.{ℕ, zero, suc, ◌+◌, ◌-◌, ◌/◌, ◌%◌, ◌≤◌, ◌<◌, ◌≡◌, ◌∙◌, [], ◌∷◌, arith}
use native.Mathlib.Decide.{dec_lt}
use fk_cesis_mms.Base.Text.{Text, digits_from, decimal, padded}

digits_last :
    (fuel n : ℕ) (acc : Text) → n < fuel → n < 10 → digits_from fuel n acc ≡ (b'0' + n) ∷ acc
unfolding digits_from
digits_last zero n acc h small = elim h [ ]
digits_last (suc fuel) n acc h small = ground arith

digits_next :
    (fuel n : ℕ) (acc : Text)
    → n < fuel
    → 10 ≤ n
    → digits_from fuel n acc ≡ digits_from (fuel - 1) (n / 10) ((b'0' + n % 10) ∷ acc)
unfolding digits_from
digits_next zero n acc h large = elim h [ ]
digits_next (suc fuel) n acc h large =
    let e : suc fuel - 1 ≡ fuel = omega arith in rw e (ground arith)

digits_two :
    (fuel n : ℕ) (acc : Text)
    → n < fuel
    → 10 ≤ n
    → n < 100
    → digits_from fuel n acc ≡ (b'0' + n / 10) ∷ (b'0' + n % 10) ∷ acc
digits_two fuel n acc h large small =
    digits_next fuel n acc h large ∙ digits_last (fuel - 1) (n / 10) _ (omega arith) (omega arith)

digits_three :
    (fuel n : ℕ) (acc : Text)
    → n < fuel
    → 100 ≤ n
    → n < 1000
    → digits_from fuel n acc ≡ (b'0' + n / 10 / 10) ∷ (b'0' + n / 10 % 10) ∷ (b'0' + n % 10) ∷ acc
digits_three fuel n acc h large small =
    digits_next fuel n acc h (omega arith)
    ∙ digits_two (fuel - 1) (n / 10) _ (omega arith) (omega arith) (omega arith)

digits_four :
    (fuel n : ℕ) (acc : Text)
    → n < fuel
    → 1000 ≤ n
    → n < 10000
    → digits_from fuel n acc
      ≡ (b'0' + n / 10 / 10 / 10)
        ∷ (b'0' + n / 10 / 10 % 10)
        ∷ (b'0' + n / 10 % 10)
        ∷ (b'0' + n % 10)
        ∷ acc
digits_four fuel n acc h large small =
    digits_next fuel n acc h (omega arith)
    ∙ digits_three (fuel - 1) (n / 10) _ (omega arith) (omega arith) (omega arith)

-- Two digits.
pub padded-two : (n : ℕ) → n < 100 → padded 2 n ≡ (b'0' + n / 10) ∷ (b'0' + n % 10) ∷ []
unfolding padded decimal
padded-two n h = elim (dec_lt n 10) [
  | yes one ↦ rw (digits_last (suc n) n [] (omega arith) one) (ground arith)
  | no more ↦ rw (digits_two (suc n) n [] (omega arith) (omega arith) h)
]

-- Four digits.
abbrev pub four_digits : ℕ → Text
four_digits n =
    (b'0' + n / 10 / 10 / 10)
    ∷ (b'0' + n / 10 / 10 % 10)
    ∷ (b'0' + n / 10 % 10)
    ∷ (b'0' + n % 10)
    ∷ []

pub padded-four : (n : ℕ) → n < 10000 → padded 4 n ≡ four_digits n
unfolding padded decimal
padded-four n h = elim (dec_lt n 100) [
  | yes below_100 ↦ elim (dec_lt n 10) [
    | yes one ↦ rw (digits_last (suc n) n [] (omega arith) one) (ground arith)
    | no two ↦ rw (digits_two (suc n) n [] (omega arith) (omega arith) below_100) (ground arith)
  ]
  | no more ↦ elim (dec_lt n 1000) [
    | yes three ↦ rw (digits_three (suc n) n [] (omega arith) (omega arith) three) (ground arith)
    | no four ↦ rw (digits_four (suc n) n [] (omega arith) (omega arith) h)
  ]
]
