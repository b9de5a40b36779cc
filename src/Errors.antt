-- ===== src/Errors.antt =====
-- The exceptions that the services raise, and the outcome of a call that may raise one. All are
-- ValueErrors (or subclasses), which callers tell apart by their message: one constructor stands
-- for one message. Nothing here is specific to a module of the program.
use fk_cesis_mms.Base.{◌≡◌, refl, ◌⊎◌, inl, inr, Bool, if◌then◌else◌, Option, none, some}

pub data Error : Type 0 where
  -- apps/billing/services.py
  month_format season_malformed season_out_of_range no_billing_months : Error
  next_year_plan_required month_before_default : Error
  confirmation_required signed_agreement_required billing_plan_required : Error
  record_exists no_plan not_draft pushed_or_sent : Error
  foreign_invoice paid_invoice sent_without_id bad_external_status : Error
  -- apps/agreements/services.py
  cannot_mark_sent cannot_mark_signed first_billing_month_required billing_plan_inactive : Error
  setup_locked minor_needs_signed material_needs_signed discontinue_needs_signed : Error
  no_agreement active_agreement : Error
  -- apps/accounts/services.py
  rate_limit_exceeded active_token_exists invalid_token token_expired token_without_email : Error
  account_inactive invalid_code code_expired new_email_required email_in_use : Error
  -- raised by `int(...)`, and by `datetime.date(...)` or `calendar.monthrange(...)`
  not_an_int bad_date : Error
  -- `DoesNotExist`, and `rows[0]` of an empty list
  does_not_exist index_error : Error
  -- a uniqueness constraint of the database
  integrity_error : Error
  -- a mail server that does not take a mail, or a queue that does not take a job
  not_delivered : Error

pub data Result {ℓ} (A : Type ℓ) : Type ℓ where
  err : Error → Result A
  ok : A → Result A

module _ {ℓ} {A : Type ℓ} where
  -- An absent value as an error.
  abbrev pub or_raise : Option A → Error → Result A
  or_raise none e = err e
  or_raise (some a) e = ok a

  -- `try: m except ValueError: raise e`
  abbrev pub re_raise : Result A → Error → Result A
  re_raise (ok a) e = ok a
  re_raise (err _) e = err e

  pub Result-cases : (r : Result A) → ((a : A) × (r ≡ ok a)) ⊎ ((e : Error) × (r ≡ err e))
  Result-cases (ok a) = inl (a, refl)
  Result-cases (err e) = inr (e, refl)

module _ {ℓ κ} {A : Type ℓ} {B : Type κ} where
  infixl 5 ◌>>=◌
  -- What follows a call runs only if the call has returned.
  abbrev pub ◌>>=◌ : Result A → (A → Result B) → Result B
  err e >>= next = err e
  ok a >>= next = next a

  pub >>=-eq-ok :
      (m : Result A) (next : A → Result B) {b : B}
      → (m >>= next) ≡ ok b
      → (a : A) × (m ≡ ok a) × (next a ≡ ok b)
  >>=-eq-ok (err e) next h = cc
  >>=-eq-ok (ok a) next h = (a, refl, h)

-- `if test: raise e`
abbrev pub raise_if : Bool → Error → Result (Unit {0})
raise_if test e = if test then err e else ok tt

infixl 5 ◌>>◌
abbrev pub ◌>>◌ {ℓ} : {B : Type ℓ} → Result (Unit {0}) → Result B → Result B
check >> rest = check >>= λ _. rest
