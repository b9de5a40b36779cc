-- ===== src/Agreements/Rows/Numbers.antt =====
-- The numbers of agreements: what is read back from one, and that the next one is free.
use fk_cesis_mms.Base.{
  ℕ, suc, ◌≤◌, ◌<◌, ◌≡◌, refl, sym, ap, ◌∙◌, true, false, none, some, List, [], ◌∷◌, ◌++◌, arith,
  any, All, Bool-cases, Option-cases, inl, inr,
}
use fk_cesis_mms.Base.Int.{pos}
use fk_cesis_mms.Base.Text.{Text, text_eq, after_last, before_first, int, decimal, padded}
use fk_cesis_mms.Base.Text.Digits.{
  AreDigits, padded-AreDigits, before_first-append, int-padded, decimal-AreDigits, int-decimal,
}
use fk_cesis_mms.Models.{Agreement}
use fk_cesis_mms.Agreements.Clock.{Clock}
use fk_cesis_mms.Agreements.Number.{
  sequence_of, in_year_window, max_sequence, next_agreement_sequence_for_year, number_for,
  has_number,
}

text_eq→eq : (s t : Text) → text_eq s t ≡ true → s ≡ t
text_eq→eq [] [] h = refl
text_eq→eq [] (d ∷ t) h = absurd (cc)
text_eq→eq (c ∷ s) [] h = absurd (cc)
text_eq→eq (c ∷ s) (d ∷ t) h = ground (arith, text_eq→eq s t)

no_dash : (t : Text) → AreDigits t → after_last b'-' t ≡ none
no_dash [] h = refl
no_dash (c ∷ t) (h, hs) = rw (no_dash t hs) (ground arith)

after_last-append : (s t : Text) → AreDigits t → after_last b'-' (s ++ b'-' ∷ t) ≡ some t
after_last-append [] t h = rw (no_dash t h) refl
after_last-append (c ∷ s) t h = rw (after_last-append s t h) refl

append_assoc : (s t u : Text) → s ++ (t ++ u) ≡ (s ++ t) ++ u
append_assoc [] t u = refl
append_assoc (c ∷ s) t u = ap (λ v. c ∷ v) (append_assoc s t u)

sequence_after :
    (number after : Text) (sequence : ℕ)
    → after_last b'-' number ≡ some after
    → int after ≡ some (pos sequence)
    → sequence_of (some number) ≡ sequence
unfolding sequence_of
sequence_after number after sequence h k = ground (arith, h, k)

-- The sequence of a number is read back.
pub sequence-number_for :
    (prefix : Text) (year sequence : ℕ)
    → sequence_of (some (number_for prefix year sequence)) ≡ sequence
unfolding number_for
sequence-number_for prefix year sequence =
    sequence_after (number_for prefix year sequence) (padded 3 sequence) sequence
      (ap (after_last b'-') (append_assoc prefix (b'-' ∷ decimal year) (b'-' ∷ padded 3 sequence))
        ∙ after_last-append (prefix ++ b'-' ∷ decimal year) (padded 3 sequence)
            (padded-AreDigits 3 sequence))
      (int-padded 3 sequence)

-- The text behind a prefix of the same length.
abbrev behind : Text → Text → Text
behind prefix [] = []
behind [] (d ∷ s) = s
behind (c ∷ prefix) (d ∷ s) = behind prefix s

behind-append : (prefix s : Text) → behind prefix (prefix ++ b'-' ∷ s) ≡ s
behind-append [] s = refl
behind-append (c ∷ prefix) s = behind-append prefix s

year-number_for :
    (prefix : Text) (year sequence : ℕ)
    → int (before_first b'-' (behind prefix (number_for prefix year sequence))) ≡ some (pos year)
unfolding number_for
year-number_for prefix year sequence =
    rw
      (
        behind-append prefix (decimal year ++ b'-' ∷ padded 3 sequence),
        before_first-append (decimal year) (padded 3 sequence) (decimal-AreDigits year),
      )
      (int-decimal year)

pos_inj : (m n : ℕ) → some (pos m) ≡ some (pos n) → m ≡ n
pos_inj m n h = cc

-- A number tells its year.
pub number_for-year :
    (prefix : Text) (year year' sequence sequence' : ℕ)
    → number_for prefix year sequence ≡ number_for prefix year' sequence'
    → year ≡ year'
number_for-year prefix year year' sequence sequence' h = pos_inj year year' (
    sym (year-number_for prefix year sequence)
    ∙ ap (λ s. int (before_first b'-' (behind prefix s))) h
    ∙ year-number_for prefix year' sequence')

module _ (clock : Clock) (prefix : Text) where
  -- A number of some year stands on a row that was generated in that year.
  abbrev pub Fits : Agreement → Type 0
  Fits a =
      (year sequence : ℕ)
      → a.agreement_number ≡ some (number_for prefix year sequence)
      → (clock.year_start year ≤ a.generated_at) × (a.generated_at < clock.year_start (suc year))

  window :
      (year : ℕ) (a : Agreement)
      → clock.year_start year ≤ a.generated_at
      → a.generated_at < clock.year_start (suc year)
      → in_year_window clock year a ≡ true
  window year a h k = ground arith

  free_from :
      (year sequence : ℕ) (rows : List Agreement)
      → All Fits rows
      → max_sequence clock year rows < sequence
      → any (λ a. has_number (number_for prefix year sequence) a.agreement_number) rows ≡ false
  unfolding max_sequence
  free_from year sequence [] fits h = refl
  free_from year sequence (a ∷ rows) (fit, fits) h =
      elim (Bool-cases (has_number (number_for prefix year sequence) a.agreement_number)) [
        | inr other ↦
            let below : max_sequence clock year rows < sequence = ground arith in
            rw (other, free_from year sequence rows fits below) refl
        | inl taken ↦ elim (Option-cases a.agreement_number) [
          | inl missing ↦ absurd (cc (rw missing at taken))
          | inr (number, is) ↦
              let same : number_for prefix year sequence ≡ number =
                text_eq→eq (number_for prefix year sequence) number (rw is at taken) in
              let (from, to) = fit year sequence (is ∙ ap some (sym same)) in
              let inside = window year a from to in
              let read : sequence_of a.agreement_number ≡ sequence =
                rw (is, ← same) (sequence-number_for prefix year sequence) in
              absurd (ground (arith, h, inside, read))
        ]
      ]

  -- No stored agreement has the number that is next for a year, where each number of a year stands
  -- on an agreement that was generated in that year.
  pub next_number_free :
      (year : ℕ) (rows : List Agreement)
      → All Fits rows
      → any
          (λ a.
            has_number
              (number_for prefix year (next_agreement_sequence_for_year clock year rows))
              a.agreement_number)
          rows
        ≡ false
  next_number_free year rows fits =
      free_from year (suc (max_sequence clock year rows)) rows fits (omega arith)
