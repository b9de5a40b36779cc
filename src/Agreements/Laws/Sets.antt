-- ===== src/Agreements/Laws/Sets.antt =====
-- What a billing setup leaves.
use fk_cesis_mms.Base.{
  ℕ, ◌<◌, ◌≡◌, refl, sym, ap, ◌∙◌, true, false, ◌&&◌, Option, none, some, [], ◌∷◌, arith,
  Bool-cases, Option-cases, inl, inr, ==_refl,
}
use mathlib.Core.Path.{subst}
use fk_cesis_mms.Base.Int.{pos}
use fk_cesis_mms.Base.Text.{Text, is_blank, text_eq, text_lt, before_first, int}
use fk_cesis_mms.Errors.{ok, Result-cases}
use fk_cesis_mms.Models.{Agreement, Db, find_plan}
use fk_cesis_mms.Billing.Calendar.{Date}
use fk_cesis_mms.Billing.Plan.{MembershipPlan}
use fk_cesis_mms.Billing.Month.{
  parse_first_billing_month, normalize_first_billing_month, plan_season_start_year,
  derive_first_billing_month,
}
use fk_cesis_mms.Billing.Month.Format.{year-format_month, not_blank-format_month}
use fk_cesis_mms.Billing.Month.Normalize.{normalize-form, normalize-format_month}
use fk_cesis_mms.Billing.Schedule.{count_calendar_year_billable_installments}
use fk_cesis_mms.Billing.Reassign.{is_year}
use fk_cesis_mms.Billing.Reassign.NewMonth.{IsNewMonth, is_year-pos}
use fk_cesis_mms.Billing.Draft.Laws.{text_eq_refl}
use fk_cesis_mms.Agreements.Signed.{is_signable, check_month_of, signing_guards}
use fk_cesis_mms.Agreements.Setup.{
  is_locked, check_setup_month, check_setup, same_plan, with_setup, write_setup, set_billing_setup,
}
use fk_cesis_mms.Agreements.Laws.Guards.{MaySign-guards}
use fk_cesis_mms.Agreements.Effects.Others.{setup-refused, setup-passed, setup-new, setup-same}

-- The months that pass: the normalized form of what was given, and a new month of the plan.
abbrev pub Passes : MembershipPlan → Text → Date → Text → ℕ → Type 0
Passes plan value today month count =
    (normalize_first_billing_month plan value ≡ ok month) × IsNewMonth plan today month count

check_month-Passes :
    (plan : MembershipPlan) (value : Text) (today : Date) (out : Text × ℕ)
    → check_setup_month plan value today ≡ ok out
    → Passes plan value today out.0 out.1
unfolding check_setup_month
check_month-Passes plan value today out h = elim (Result-cases (parse_first_billing_month value)) [
  | inr (x, e) ↦ absurd (ground (arith, h, e))
  | inl (start, e) ↦ elim (Result-cases (normalize_first_billing_month plan value)) [
    | inr (x, f) ↦ absurd (ground (arith, h, e, f))
    | inl (month, f) ↦ elim (Bool-cases (text_lt month (derive_first_billing_month plan today))) [
      | inl g ↦ absurd (ground (arith, h, e, f, g))
      | inr g ↦ elim (Result-cases (plan_season_start_year plan)) [
        | inr (x, s) ↦ absurd (ground (arith, h, e, f, g, s))
        | inl (season, s) ↦ elim (Option-cases (int (before_first b'-' month))) [
          | inl i ↦ absurd (ground (arith, h, e, f, g, s, i))
          | inr (y, i) ↦ elim (Bool-cases (is_year y season)) [
            | inr k ↦ absurd (ground (arith, h, e, f, g, s, i, k))
            | inl k ↦ elim (Result-cases (count_calendar_year_billable_installments plan month)) [
              | inr (x, c) ↦ absurd (ground (arith, h, e, f, g, s, i, k, c))
              | inl (count, c) ↦
                  let same : (month, count) ≡ out = ground (arith, h, e, f, g, s, i, k, c) in
                  subst (λ o. Passes plan value today o.0 o.1) same
                    (f, (season, s, i ∙ ap some (is_year-pos y season k), g, c))
            ]
          ]
        ]
      ]
    ]
  ]
]

check-facts :
    (a : Agreement) (plan : MembershipPlan) (value : Text) (today : Date) (out : Text × ℕ)
    → check_setup a plan value today ≡ ok out
    → (is_locked a.state ≡ false) × (plan.is_active ≡ true) × Passes plan value today out.0 out.1
unfolding check_setup
check-facts a plan value today out h = elim (Bool-cases (is_locked a.state)) [
  | inl e ↦ absurd (ground (arith, h, e))
  | inr e ↦ elim (Bool-cases (is_blank value)) [
    | inl f ↦ absurd (ground (arith, h, e, f))
    | inr f ↦ elim (Bool-cases plan.is_active) [
      | inr g ↦ absurd (ground (arith, h, e, f, g))
      | inl g ↦ (e, g, check_month-Passes plan value today out (ground (arith, h, e, f, g)))
    ]
  ]
]

season-small :
    (plan : MembershipPlan) (year : ℕ) → plan_season_start_year plan ≡ ok year → year < 10000
unfolding plan_season_start_year
season-small plan year h = ground arith

pos_inj : (m n : ℕ) → some (pos m) ≡ some (pos n) → m ≡ n
pos_inj m n h = cc

-- A month that passed is normalized, so that a signature takes it.
passed-signs :
    (plan : MembershipPlan) (value : Text) (today : Date) (month : Text) (count : ℕ)
    → Passes plan value today month count
    → (is_blank month ≡ false) × (check_month_of plan month ≡ ok tt)
unfolding check_month_of
passed-signs plan value today month count (normalized, (year, season, is_year, _, _)) =
    let (y, m, in_year, free, form) = normalize-form plan value month normalized in
    let same : y ≡ year =
      pos_inj y year
        (sym (year-format_month y m) ∙ ap (λ s. int (before_first b'-' s)) (sym form) ∙ is_year) in
    let small : y < 10000 = rw same (season-small plan year season) in
    let again : normalize_first_billing_month plan month ≡ ok month =
      rw form (normalize-format_month plan y m small in_year free) in
    (rw form (not_blank-format_month y m), ground (arith, season, again, is_year))

module _ (a : Agreement) (plan : MembershipPlan) (value : Text) (today : Date) (db : Db) where
  -- The agreement that a setup returns, as the checks and the write give it.
  abbrev IsWritten : Agreement → Type 0
  IsWritten b =
      (out : Text × ℕ) × (check_setup a plan value today ≡ ok out)
      × (write_setup a plan out.0 out.1 db ≡ set_billing_setup a plan value today db)
      × ((write_setup a plan out.0 out.1 db).0 ≡ ok b)

  returned : (b : Agreement) → (set_billing_setup a plan value today db).0 ≡ ok b → IsWritten b
  returned b h = elim (Result-cases (check_setup a plan value today)) [
    | inr (e, refused) ↦ absurd (cc (rw (setup-refused a db plan value today e refused) at h))
    | inl (out, passed) ↦
        let call = setup-passed a db plan value today out passed in
        (out, passed, sym call, ap (λ o. o.0) (sym call) ∙ h)
  ]

text_eq-eq : (s t : Text) → text_eq s t ≡ true → s ≡ t
text_eq-eq [] [] h = refl
text_eq-eq [] (d ∷ t) h = absurd (cc)
text_eq-eq (c ∷ s) [] h = absurd (cc)
text_eq-eq (c ∷ s) (d ∷ t) h = ground (arith, text_eq-eq s t)

same_plan-eq : (k : Option ℕ) (j : ℕ) → same_plan k j ≡ true → k ≡ some j
same_plan-eq none j h = absurd (cc)
same_plan-eq (some k) j h = ground arith

-- The checks read the state of the agreement alone.
same_check :
    (a b : Agreement) (plan : MembershipPlan) (value : Text) (today : Date)
    → b.state ≡ a.state
    → check_setup b plan value today ≡ check_setup a plan value today
unfolding check_setup
same_check a b plan value today e = rw e refl

-- The written agreement has the plan and the month, and the state of before.
written_lem :
    (a : Agreement) (plan : MembershipPlan) (month : Text) (count : ℕ) (db : Db) (b : Agreement)
    → (write_setup a plan month count db).0 ≡ ok b
    → (b.billing_plan_id ≡ some plan.pk) × (b.first_billing_month ≡ month) × (b.state ≡ a.state)
written_lem a plan month count db b h =
    elim (Bool-cases (same_plan a.billing_plan_id plan.pk && text_eq a.first_billing_month month)) [
      | inr new ↦
          let is : with_setup plan.pk month a ≡ b =
            cc (rw (setup-new a db plan month count new) at h) in
          rw (← is) (refl, refl, refl)
      | inl same ↦
          let is : a ≡ b = cc (rw (setup-same a db plan month count same) at h) in
          let planned : same_plan a.billing_plan_id plan.pk ≡ true = ground arith in
          let timed : text_eq a.first_billing_month month ≡ true = ground arith in
          rw (← is) (
            same_plan-eq a.billing_plan_id plan.pk planned,
            text_eq-eq a.first_billing_month month timed,
            refl,
          )
    ]

module _ (a : Agreement) (plan : MembershipPlan) (value : Text) (today : Date) (db : Db)
    (b : Agreement) (h : (set_billing_setup a plan value today db).0 ≡ ok b) where
  -- A billing setup that returned was not locked, its plan is active and is the agreement's plan
  -- now, the state is that of before, and the month is the normalized form of the given one, in the
  -- season-start year of the plan and not before the default month of today.
  pub set-IsNewMonth :
      (is_locked a.state ≡ false)
      × (plan.is_active ≡ true)
      × (b.billing_plan_id ≡ some plan.pk)
      × (b.state ≡ a.state)
      × ((count : ℕ) × Passes plan value today b.first_billing_month count)
  set-IsNewMonth =
      let (out, passed, _, wrote) = returned a plan value today db b h in
      let (plan_id, month, state) = written_lem a plan out.0 out.1 db b wrote in
      let (open_still, active, passes) = check-facts a plan value today out passed in
      (
        open_still,
        active,
        plan_id,
        state,
        (out.1, subst (λ m. Passes plan value today m out.1) (sym month) passes),
      )

  -- After a billing setup that returned, where the agreement may be signed and the plan is the
  -- stored one of its key, the guards of a signature pass.
  pub set-signs :
      is_signable a.state ≡ true
      → find_plan plan.pk db.plans ≡ some plan
      → signing_guards db.plans b ≡ ok tt
  set-signs signable stored =
      let (_, active, plan_id, state, (count, passes)) = set-IsNewMonth in
      let (month, signs) = passed-signs plan value today b.first_billing_month count passes in
      let ready : is_signable b.state ≡ true = rw state signable in
      MaySign-guards db.plans b plan (plan.pk, plan_id, stored, ready, month, active, signs)

  -- After a billing setup that returned, the same setup of the returned agreement returns it again
  -- and changes nothing.
  pub set_again :
      let db' = (set_billing_setup a plan value today db).1 in
      set_billing_setup b plan value today db' ≡ (ok b, db')
  set_again =
      let db' = (set_billing_setup a plan value today db).1 in
      let (out, passed, _, wrote) = returned a plan value today db b h in
      let (plan_id, month, state) = written_lem a plan out.0 out.1 db b wrote in
      let unchanged : (same_plan b.billing_plan_id plan.pk && text_eq b.first_billing_month out.0)
          ≡ true =
        rw (plan_id, month, ==_refl plan.pk, text_eq_refl out.0) refl in
      setup-passed b db' plan value today out (same_check a b plan value today state ∙ passed)
      ∙ setup-same b db' plan out.0 out.1 unchanged
