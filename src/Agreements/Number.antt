-- ===== src/Agreements/Number.antt =====
-- The numbers of agreements in apps/agreements/services.py: `_next_agreement_sequence_for_year`
-- and `_assign_agreement_number`.
use fk_cesis_mms.Base.{
  ℕ, zero, suc, max, Bool, true, false, not, ◌&&◌, Option, none, some, List, [], ◌∷◌, ◌++◌, any,
  ltb, leb, ◌==◌, if◌then◌else◌,
}
use fk_cesis_mms.Base.Int.{pos, negsuc}
use fk_cesis_mms.Base.Text.{Text, codes, is_blank, text_eq, after_last, int, decimal, padded}
use fk_cesis_mms.Errors.{ok, integrity_error}
use fk_cesis_mms.Models.{Agreement, Db}
use fk_cesis_mms.Models.Action.{Action, pure, raise}
use fk_cesis_mms.Billing.Plan.{strip}
use fk_cesis_mms.Billing.Reassign.{update_agreement}
use fk_cesis_mms.Agreements.Clock.{Clock}

-- `agreement.save(update_fields=...)`: the fields that `f` sets, on the row of that key.
abbrev pub save_agreement : ℕ → (Agreement → Agreement) → Db → Db
save_agreement k f db = record db { agreements = update_agreement k f db.agreements }

abbrev pub or_fkc : Text → Text
or_fkc [] = codes "FKC"
or_fkc (c ∷ s) = c ∷ s

-- `_agreement_number_prefix`, from the setting, which is `none` where it is not set.
abbrev pub agreement_number_prefix : Option Text → Text
agreement_number_prefix none = or_fkc (strip (codes "FKC"))
agreement_number_prefix (some setting) = or_fkc (strip (or_fkc setting))

-- The sequence that a number ends with, and 0 where it does not end with one, which is below each
-- sequence.
unfoldable pub sequence_of : Option Text → ℕ
sequence_of none = 0
sequence_of (some number) = elim (after_last b'-' number) [
  | none ↦ 0
  | some after ↦ elim (int after) [
    | none ↦ 0
    | some n ↦ elim n [ pos sequence ↦ sequence | negsuc _ ↦ 0 ]
  ]
]

-- The row was generated in that year.
abbrev pub in_year_window : Clock → ℕ → Agreement → Bool
in_year_window clock year a =
    leb (clock.year_start year) a.generated_at && ltb a.generated_at (clock.year_start (suc year))

unfoldable pub max_sequence : Clock → ℕ → List Agreement → ℕ
max_sequence clock year [] = 0
max_sequence clock year (a ∷ rows) =
    let rest = max_sequence clock year rows in
    if in_year_window clock year a then max (sequence_of a.agreement_number) rest else rest

-- `_next_agreement_sequence_for_year`
abbrev pub next_agreement_sequence_for_year : Clock → ℕ → List Agreement → ℕ
next_agreement_sequence_for_year clock year rows = suc (max_sequence clock year rows)

-- `f"{prefix}-{year}-{sequence:03d}"`
unfoldable pub number_for : Text → ℕ → ℕ → Text
number_for prefix year sequence = prefix ++ b'-' ∷ (decimal year ++ b'-' ∷ padded 3 sequence)

abbrev pub has_number : Text → Option Text → Bool
has_number number none = false
has_number number (some other) = text_eq number other

-- Another row has the number, so that the column's uniqueness refuses it.
abbrev pub number_taken : ℕ → Text → List Agreement → Bool
number_taken k number rows = any (λ a. not (a.pk == k) && has_number number a.agreement_number) rows

abbrev pub with_number : Text → Agreement → Agreement
with_number number a = record a { agreement_number = some number }

-- `agreement.agreement_number` is a number that is not blank.
abbrev pub is_numbered : Option Text → Bool
is_numbered none = false
is_numbered (some number) = not (is_blank number)

module _ (clock : Clock) (setting : Option Text) where
  -- The loop over attempts; a refused save is rolled back.
  unfoldable pub try_numbers : ℕ → ℕ → Agreement → Action Agreement
  try_numbers zero year a db = raise integrity_error db
  try_numbers (suc left) year a db =
      let number =
        number_for (agreement_number_prefix setting) year
          (next_agreement_sequence_for_year clock year db.agreements) in
      elim (number_taken a.pk number db.agreements) [
        | true ↦ try_numbers left year a db
        | false ↦ (ok (with_number number a), save_agreement a.pk (with_number number) db)
      ]

  -- `_assign_agreement_number`
  unfoldable pub assign_agreement_number : Agreement → Action Agreement
  assign_agreement_number a =
      if is_numbered a.agreement_number
      then pure a
      else try_numbers 5 (clock.local_date a.generated_at).year a
