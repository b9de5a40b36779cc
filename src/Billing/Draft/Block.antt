-- ===== src/Billing/Draft/Block.antt =====
-- The block of `recreate_missing_billing_record` that writes.
use fk_cesis_mms.Base.{ℕ, ◌≡◌, refl, Bool, true, false, Option, none, some, arith}
use fk_cesis_mms.Errors.{Error, Result, ok, err, record_exists, no_plan}
use fk_cesis_mms.Models.{Member, Agreement, BillingRecord, Db}
use fk_cesis_mms.Models.Action.{atomic}
use fk_cesis_mms.Billing.Plan.{MembershipPlan}
use fk_cesis_mms.Billing.Money.{BillingAmounts}
use fk_cesis_mms.Billing.Store.{find_for, add_record}
use fk_cesis_mms.Billing.Draft.{plan_for, draft_amounts, create_draft_billing, recreate_block}
use fk_cesis_mms.Billing.Draft.Outcome.{draft_record}
use fk_cesis_mms.Billing.Draft.Laws.{
  Drafts, raised, no_plan_found, kept, added, create_draft-Drafts,
}

module _ (n : Bool) (member : Member) (a : Agreement) (db : Db) where
  -- What the block does to the database.
  pub data Makes : Result BillingRecord × Db → Type 0 where
    fails : (e : Error) → Makes (err e, db)
    makes :
        (p : MembershipPlan) (amounts : BillingAmounts) (scheduled : Option ℕ)
        → plan_for db.plans (some a) ≡ ok (some p)
        → find_for member.pk p.season db.records ≡ none
        → draft_amounts n db member p (some a) a.first_billing_month ≡ ok (amounts, scheduled)
        → Makes (
          ok (draft_record n member p (some a) a.first_billing_month db amounts scheduled),
          add_record
              (draft_record n member p (some a) a.first_billing_month db amounts scheduled)
              db,
        )

  abbrev of_draft : Result (Option BillingRecord × Bool) × Db → Result BillingRecord × Db
  of_draft (err e, db') = (err e, db)
  of_draft (ok (none, created), db') = (err no_plan, db)
  of_draft (ok (some r, false), db') = (err record_exists, db)
  of_draft (ok (some r, true), db') = (ok r, db')

  block-of_draft :
      atomic (recreate_block n member a) db ≡ of_draft (create_draft_billing n member (some a) db)
  unfolding atomic recreate_block
  block-of_draft = go (create_draft_billing n member (some a) db) refl
    where
      go :
          (out : Result (Option BillingRecord × Bool) × Db)
          → create_draft_billing n member (some a) db ≡ out
          → atomic (recreate_block n member a) db
            ≡ of_draft (create_draft_billing n member (some a) db)
      go (err e, db') h = ground arith
      go (ok (none, created), db') h = ground arith
      go (ok (some r, false), db') h = ground arith
      go (ok (some r, true), db') h = ground arith

  of_draft-Makes :
      {out : Result (Option BillingRecord × Bool) × Db}
      → Drafts n member (some a) db out
      → Makes (of_draft out)
  of_draft-Makes (raised e) = fails e
  of_draft-Makes (no_plan_found h) = fails no_plan
  of_draft-Makes (kept p r h found) = fails record_exists
  of_draft-Makes (added p amounts scheduled h missing made) =
      makes p amounts scheduled h missing made

  pub block-Makes : Makes (atomic (recreate_block n member a) db)
  block-Makes = rw block-of_draft (of_draft-Makes (create_draft-Drafts n member (some a) db))
