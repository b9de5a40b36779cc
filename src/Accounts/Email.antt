-- ===== src/Accounts/Email.antt =====
-- `change_parent_email` of apps/accounts/services.py.
pub mod Unique
use fk_cesis_mms.Base.{ℕ, Bool, not, ◌&&◌, List, [], ◌∷◌, any, ◌==◌, if◌then◌else◌}
use fk_cesis_mms.Base.Text.{Text, is_blank, text_eq}
use fk_cesis_mms.Errors.{Result, ok, err, new_email_required, email_in_use}
use fk_cesis_mms.Billing.Plan.{strip}
use fk_cesis_mms.Accounts.Store.{ParentAccount, Store, lower, iexact}

abbrev pub put_email : ℕ → Text → List ParentAccount → List ParentAccount
put_email key email [] = []
put_email key email (a ∷ accounts) =
    (if a.pk == key then record a { email = email } else a) ∷ put_email key email accounts

-- Another account has the address.
abbrev pub owned_by_other : ℕ → Text → List ParentAccount → Bool
owned_by_other key email accounts = any (λ a. not (a.pk == key) && iexact a.email email) accounts

-- (The column's own uniqueness compares the addresses as they are, so that it refuses nothing that
-- the test before has let through.)
unfoldable pub change_parent_email : ParentAccount → Text → Store → Result ParentAccount × Store
change_parent_email account new_email store =
    let normalized = lower (strip new_email) in
    if is_blank normalized
    then (err new_email_required, store)
    else if text_eq normalized (lower account.email)
    then (ok account, store)
    else if owned_by_other account.pk normalized store.accounts
    then (err email_in_use, store)
    else (
      ok (record account { email = normalized }),
      record store { accounts = put_email account.pk normalized store.accounts },
    )
