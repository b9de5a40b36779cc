-- ===== src/Billing/Store/Update.antt =====
-- A saved row is the row that is found afterwards.
use fk_cesis_mms.Base.{ℕ, ◌≡◌, some, List, [], ◌∷◌, arith}
use fk_cesis_mms.Models.{BillingRecord}
use fk_cesis_mms.Billing.Store.{find_record, update_record}

-- A row is found as it was saved, if its key was kept.
pub find-update :
    (k : ℕ) (f : BillingRecord → BillingRecord) (rows : List BillingRecord) (r : BillingRecord)
    → ((x : BillingRecord) → (f x).pk ≡ x.pk)
    → find_record k rows ≡ some r
    → find_record k (update_record k f rows) ≡ some (f r)
find-update k f [] r same found = absurd (cc)
find-update k f (x ∷ rows) r same found = ground (arith, find-update k f rows r same, same x)
