-- ===== src/Billing/Records/Amounts.antt =====
-- Recomputed amounts.
use fk_cesis_mms.Base.{
  ℕ, ◌≡◌, ◌≤◌, refl, ap, Option, none, some, List, [], ◌∷◌, arith, Option-cases, inl, inr,
}
use fk_cesis_mms.Base.Int.{ℤ, pos, negsuc, ◌≤ℤ◌, ◌+ℤ◌}
use fk_cesis_mms.Errors.{ok, err, does_not_exist}
use fk_cesis_mms.Models.{BillingRecord, Db, find_plan, draft, confirmed, RecordStatus}
use fk_cesis_mms.Billing.Plan.{MembershipPlan}
use fk_cesis_mms.Billing.Money.{whole, partial_base_amount, amounts_of}
use fk_cesis_mms.Billing.Money.Bounds.{partial_base_bounds, final_bounds}
use fk_cesis_mms.Billing.Store.{update_record, save_record}
use fk_cesis_mms.Billing.Records.{base_for, with_base, copy_amounts, recompute_billing_record}

-- A saved count of some of the plan's installments.
abbrev pub IsCountOf : MembershipPlan → Option ℕ → Type 0
IsCountOf plan none = Unit
IsCountOf plan (some count) = (1 ≤ count) × (count ≤ plan.installment_count)

pos_of : (a : ℤ) → pos 0 ≤ℤ a → (n : ℕ) × (a ≡ pos n)
pos_of (pos n) h = (n, refl)
pos_of (negsuc n) h = absurd (omega (arith, h))

-- The base is at most the plan's amount.
base_for-le :
    (p : MembershipPlan) (annual : ℕ) (count : Option ℕ)
    → p.annual_amount ≡ pos annual
    → IsCountOf p count
    → (base : ℕ) × (base_for p count ≡ pos base) × (base ≤ annual)
base_for-le p annual none amount h = (annual, amount, omega arith)
base_for-le p annual (some count) amount h = rw amount (
    let (at_least, at_most, _) = partial_base_bounds annual p.installment_count count h.0 h.1 in
    let part = partial_base_amount (pos annual) p.installment_count count in
    let (n, e) = pos_of part at_least in
    (n, e, let bound : pos n ≤ℤ pos annual = rw e at at_most in omega (arith, bound)))

copy-again :
    (r : BillingRecord) (k : ℕ) (rows : List BillingRecord)
    → update_record k (copy_amounts r) (update_record k (copy_amounts r) rows)
      ≡ update_record k (copy_amounts r) rows
copy-again r k [] = refl
copy-again r k (x ∷ rows) = ground (arith, copy-again r k rows)

-- A confirmed record is left as it is.
pub recompute-confirmed :
    (r : BillingRecord) (db : Db)
    → r.status ≡ confirmed
    → recompute_billing_record r db ≡ (ok r, db)
unfolding recompute_billing_record
recompute-confirmed r db h = ground arith

pub recompute-draft :
    (r : BillingRecord) (db : Db) (p : MembershipPlan)
    → r.status ≡ draft
    → find_plan r.plan_id db.plans ≡ some p
    → let r' = with_base (base_for p r.scheduled_installment_count) r in
      recompute_billing_record r db ≡ (ok r', save_record r.pk (copy_amounts r') db)
unfolding recompute_billing_record
recompute-draft r db p h found = ground arith

recompute-missing :
    (r : BillingRecord) (db : Db)
    → r.status ≡ draft
    → find_plan r.plan_id db.plans ≡ none
    → recompute_billing_record r db ≡ (err does_not_exist, db)
unfolding recompute_billing_record
recompute-missing r db h found = ground arith

-- After a recomputation that returned a record, recomputing that record changes nothing.
pub recompute_again :
    (r r' : BillingRecord) (db : Db)
    → (recompute_billing_record r db).0 ≡ ok r'
    → let db' = (recompute_billing_record r db).1 in recompute_billing_record r' db' ≡ (ok r', db')
recompute_again r r' db done = by_status r.status refl
  where
    by_status :
        (s : RecordStatus)
        → r.status ≡ s
        → let db' = (recompute_billing_record r db).1 in
          recompute_billing_record r' db' ≡ (ok r', db')
    by_status confirmed h =
        let e = recompute-confirmed r db h in let same : r ≡ r' = cc in rw (← same) (rw (e) e)
    by_status draft h = elim (Option-cases (find_plan r.plan_id db.plans)) [
      | inl missing ↦ absurd (cc (recompute-missing r db h missing))
      | inr (p, found) ↦
          let new = with_base (base_for p r.scheduled_installment_count) r in
          let e = recompute-draft r db p h found in
          let same : new ≡ r' = cc in
          rw (e, ← same)
            (rw (recompute-draft new (save_record r.pk (copy_amounts new) db) p h found) (
              ap (λ rows. (ok new, record db { records = rows })) (copy-again new r.pk db.records)))
    ]

with_base-bounds :
    (base : ℕ) (r : BillingRecord)
    → r.manual_amount_override ≡ none
    → r.sibling_discount_percent_applied ≤ whole
    → let r' = with_base (pos base) r in
      (pos 0 ≤ℤ r'.final_amount)
      × (r'.final_amount ≤ℤ pos base)
      × (r'.final_amount +ℤ r'.discount_amount ≡ pos base)
unfolding amounts_of
with_base-bounds base r no_override percent =
    let (low, high, sum, _, _) = final_bounds base r.sibling_discount_percent_applied percent in
    rw no_override (low, high, sum)

-- A draft with no override, at a discount of at most the whole and a saved count, if it has one, of
-- some of the plan's installments, ends with a price between nothing and the plan's amount, and its
-- base less its discount.
pub recompute_bounds :
    (r : BillingRecord) (db : Db) (p : MembershipPlan) (annual : ℕ)
    → r.status ≡ draft
    → find_plan r.plan_id db.plans ≡ some p
    → p.annual_amount ≡ pos annual
    → r.manual_amount_override ≡ none
    → r.sibling_discount_percent_applied ≤ whole
    → IsCountOf p r.scheduled_installment_count
    → (r' : BillingRecord) × ((recompute_billing_record r db).0 ≡ ok r')
      × (pos 0 ≤ℤ r'.final_amount)
      × (r'.final_amount ≤ℤ pos annual)
      × (r'.final_amount +ℤ r'.discount_amount ≡ r'.base_amount)
recompute_bounds r db p annual h found amount no_override percent count =
    let new = with_base (base_for p r.scheduled_installment_count) r in
    let (base, e, small) = base_for-le p annual r.scheduled_installment_count amount count in
    let (low, high, sum) = with_base-bounds base r no_override percent in
    (
      new,
      ap (λ o. o.0) (recompute-draft r db p h found),
      rw e low,
      rw e (omega (arith, high, small)),
      rw e sum,
    )
