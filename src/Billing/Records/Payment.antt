-- ===== src/Billing/Records/Payment.antt =====
-- The payment status of a record against those of its invoices.
use fk_cesis_mms.Base.{
  ℕ, ◌≡◌, ◌≢◌, refl, ◌⊎◌, inl, inr, ◌↔◌, true, false, Option, none, some, List, [], ◌∷◌, All, all,
  any, arith, Bool-cases,
}
use fk_cesis_mms.Errors.{ok}
use fk_cesis_mms.Models.{BillingInvoice, BillingRecord, Db, PaymentStatus, unpaid, partial, paid}
use fk_cesis_mms.Billing.Store.{find_record, save_record}
use fk_cesis_mms.Billing.Store.Update.{find-update}
use fk_cesis_mms.Billing.Records.{rolled_up, roll_up_payment_status, is_paid, is_paid_or_partial}

-- What each status says of the invoices.
pub IsPaid : BillingInvoice → Type 0
IsPaid i = i.payment_status ≡ some paid

pub IsStarted : BillingInvoice → Type 0
IsStarted i = (i.payment_status ≡ some paid) ⊎ (i.payment_status ≡ some partial)

abbrev pub IsRolledUp : List BillingInvoice → PaymentStatus → Type 0
IsRolledUp invoices paid = (invoices ≢ []) × All IsPaid invoices
IsRolledUp invoices partial =
    ¬ ((invoices ≢ []) × All IsPaid invoices) × ¬ All (λ i. ¬ IsStarted i) invoices
IsRolledUp invoices unpaid = All (λ i. ¬ IsStarted i) invoices

all-IsPaid :
    (invoices : List BillingInvoice)
    → (all (λ i. is_paid i.payment_status) invoices ≡ true) ↔ All IsPaid invoices
unfolding IsPaid
all-IsPaid [] = ground arith
all-IsPaid (i ∷ rest) = ground (arith, all-IsPaid rest)

started :
    (s : Option PaymentStatus)
    → (is_paid_or_partial s ≡ false) ↔ (¬ ((s ≡ some paid) ⊎ (s ≡ some partial)))
started none = ((λ _ h. elim h [ inl e ↦ cc | inr e ↦ cc ]), (λ _. refl))
started (some unpaid) = ((λ _ h. elim h [ inl e ↦ cc | inr e ↦ cc ]), (λ _. refl))
started (some partial) = ((λ e. absurd (cc)), (λ h. absurd (h (inr refl))))
started (some paid) = ((λ e. absurd (cc)), (λ h. absurd (h (inl refl))))

none-IsStarted :
    (invoices : List BillingInvoice)
    → (any (λ i. is_paid_or_partial i.payment_status) invoices ≡ false)
      ↔ All (λ i. ¬ IsStarted i) invoices
unfolding IsStarted
none-IsStarted [] = ground arith
none-IsStarted (i ∷ rest) = ground (arith, none-IsStarted rest, started i.payment_status)

-- The status is `paid` where there are invoices and all are paid, `unpaid` where none is paid or
-- partly paid, and `partial` in the other cases.
pub rolled_up-IsRolledUp :
    (invoices : List BillingInvoice) → IsRolledUp invoices (rolled_up invoices)
unfolding rolled_up
rolled_up-IsRolledUp [] = tt
rolled_up-IsRolledUp (i ∷ rest) =
    let (all_to, all_from) = all-IsPaid (i ∷ rest) in
    let (any_to, any_from) = none-IsStarted (i ∷ rest) in
    elim (Bool-cases (all (λ i. is_paid i.payment_status) (i ∷ rest))) [
      | inl a ↦ rw a ((λ e. cc), all_to a)
      | inr a ↦ elim (Bool-cases (any (λ i. is_paid_or_partial i.payment_status) (i ∷ rest))) [
        | inl b ↦
            rw (a, b)
              ((λ h. let e = all_from h.1 in absurd (cc)), (λ h. let e = any_from h in absurd (cc)))
        | inr b ↦ rw (a, b) (any_to b)
      ]
    ]

abbrev stamped : PaymentStatus → ℕ → BillingRecord → BillingRecord
stamped status now row = record row { payment_status = some status; payment_synced_at = some now }

roll_up-stamped :
    (r row : BillingRecord) (now : ℕ) (db : Db)
    → find_record r.pk db.records ≡ some row
    → roll_up_payment_status r now db
      ≡ (ok tt, save_record r.pk (stamped (rolled_up row.invoices) now) db)
unfolding roll_up_payment_status
roll_up-stamped r row now db found = ground arith

-- The call stores the status that the stored invoices add up to, and the time, on the stored
-- record, and keeps its invoices.
pub roll_up_payment_status_lem :
    (r row : BillingRecord) (now : ℕ) (db : Db)
    → find_record r.pk db.records ≡ some row
    → let (result, db') = roll_up_payment_status r now db in
      (result ≡ ok tt)
      × (stored : BillingRecord) × (find_record r.pk db'.records ≡ some stored)
      × (stored.payment_synced_at ≡ some now)
      × (stored.invoices ≡ row.invoices)
      × (status : PaymentStatus) × (stored.payment_status ≡ some status)
      × IsRolledUp row.invoices status
roll_up_payment_status_lem r row now db found =
    let status = rolled_up row.invoices in
    rw (roll_up-stamped r row now db found) (
      refl,
      stamped status now row,
      find-update r.pk (stamped status now) db.records row (λ x. refl) found,
      refl,
      refl,
      status,
      refl,
      rolled_up-IsRolledUp row.invoices,
    )
