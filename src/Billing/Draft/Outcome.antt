-- ===== src/Billing/Draft/Outcome.antt =====
-- What the creating services do to the database: each returns an old record, raises with nothing
-- changed, or adds one record.
use fk_cesis_mms.Base.{ℕ, ◌≡◌, Bool, true, false, Option, none, some, arith, inl, inr, Option-cases}
use fk_cesis_mms.Base.Text.{Text}
use fk_cesis_mms.Errors.{Error, Result, ok, err, Result-cases}
use fk_cesis_mms.Models.{Member, Agreement, BillingRecord, Db}
use fk_cesis_mms.Billing.Plan.{MembershipPlan}
use fk_cesis_mms.Billing.Money.{BillingAmounts}
use fk_cesis_mms.Billing.Family.{member_opted_out}
use fk_cesis_mms.Billing.Store.{find_for, new_record, add_record, payment_mode_of}
use fk_cesis_mms.Billing.Draft.{agreement_pk, draft_amounts, create_for_season}

module _ (n : Bool) (member : Member) (plan : MembershipPlan) (agreement : Option Agreement)
    (month : Text) (db : Db) where
  -- The record that a creation adds.
  abbrev pub draft_record : BillingAmounts → Option ℕ → BillingRecord
  draft_record amounts scheduled =
      new_record db.next_pk member plan (agreement_pk agreement) amounts (payment_mode_of member)
        (member_opted_out member) month scheduled

  pub data Creates : Result (BillingRecord × Bool) × Db → Type 0 where
    old :
        (r : BillingRecord)
        → find_for member.pk plan.season db.records ≡ some r
        → Creates (ok (r, false), db)
    fails : (e : Error) → find_for member.pk plan.season db.records ≡ none → Creates (err e, db)
    adds :
        (amounts : BillingAmounts) (scheduled : Option ℕ)
        → find_for member.pk plan.season db.records ≡ none
        → draft_amounts n db member plan agreement month ≡ ok (amounts, scheduled)
        → Creates (
          ok (draft_record amounts scheduled, true),
          add_record (draft_record amounts scheduled) db,
        )

  pub create-old :
      (r : BillingRecord)
      → find_for member.pk plan.season db.records ≡ some r
      → create_for_season n member plan agreement month db ≡ (ok (r, false), db)
  unfolding create_for_season
  create-old r found = cc

  create-fails :
      (e : Error)
      → find_for member.pk plan.season db.records ≡ none
      → draft_amounts n db member plan agreement month ≡ err e
      → create_for_season n member plan agreement month db ≡ (err e, db)
  unfolding create_for_season
  create-fails e missing failed = ground arith

  create-adds :
      (amounts : BillingAmounts) (scheduled : Option ℕ)
      → find_for member.pk plan.season db.records ≡ none
      → draft_amounts n db member plan agreement month ≡ ok (amounts, scheduled)
      → create_for_season n member plan agreement month db ≡ (
        ok (draft_record amounts scheduled, true),
        add_record (draft_record amounts scheduled) db,
      )
  unfolding create_for_season
  create-adds amounts scheduled missing e = ground arith

  pub create_for_season-Creates : Creates (create_for_season n member plan agreement month db)
  create_for_season-Creates = elim (Option-cases (find_for member.pk plan.season db.records)) [
    | inr (r, found) ↦ rw (create-old r found) (old r found)
    | inl missing ↦ elim (Result-cases (draft_amounts n db member plan agreement month)) [
      | inl ((amounts, scheduled), e) ↦
          rw (create-adds amounts scheduled missing e) (adds amounts scheduled missing e)
      | inr (e, failed) ↦ rw (create-fails e missing failed) (fails e missing)
    ]
  ]
