-- ===== src/Accounts/Store.antt =====
-- The rows of apps/accounts/models.py, the drafts of applications that wait for an account, and the
-- times at which mails went out, which the module keeps in memory (`_send_timestamps`).
use fk_cesis_mms.Base.{
  ℕ, suc, ◌+◌, Bool, true, not, ◌&&◌, ◌||◌, Option, none, some, List, [], ◌∷◌, ◌++◌, ltb, leb,
  if◌then◌else◌, count_if, keep,
}
use fk_cesis_mms.Base.Text.{Text, text_eq}

pub record ParentAccount : Type 0 where
  pub pk : ℕ
  pub email : Text
  pub is_active : Bool

pub record MagicLinkToken : Type 0 where
  pub pk : ℕ
  pub account_id : Option ℕ
  pub claimed_email : Text
  pub token_hash : Text
  pub expires_at : ℕ
  pub sent_at : Option ℕ
  pub used_at : Option ℕ

-- `EmailVerificationCode`
pub record VerificationCode : Type 0 where
  pub pk : ℕ
  pub email : Text
  pub code_hash : Text
  pub expires_at : ℕ
  pub used_at : Option ℕ
  pub origin_session_key : Option Text

-- A draft of an application, as far as its owner goes.
pub record Draft : Type 0 where
  pub claimed_email : Text
  pub parent_account : Option ℕ

-- The codes stand with the newest first. Times are in seconds.
pub record Store : Type 0 where
  pub accounts : List ParentAccount
  pub tokens : List MagicLinkToken
  pub codes : List VerificationCode
  pub drafts : List Draft
  pub sends : List (Text × ℕ)
  pub next_pk : ℕ

-- `s.lower()`, on ASCII texts.
abbrev pub lower_code : ℕ → ℕ
lower_code c = if leb b'A' c && leb c b'Z' then c + 32 else c

abbrev pub lower : Text → Text
lower [] = []
lower (c ∷ s) = lower_code c ∷ lower s

-- The lookup `__iexact`.
abbrev pub iexact : Text → Text → Bool
iexact s t = text_eq (lower s) (lower t)

abbrev pub find_email : Text → List ParentAccount → Option ParentAccount
find_email email [] = none
find_email email (a ∷ accounts) =
    let rest = find_email email accounts in if text_eq a.email email then some a else rest

abbrev pub new_account : ℕ → Text → ParentAccount
new_account key email = record { pk = key; email = email; is_active = true }

-- `ParentAccount.objects.get_or_create(email=...)`, which compares the emails as they are.
unfoldable pub get_or_create : Text → Store → ParentAccount × Store
get_or_create email store = elim (find_email email store.accounts) [
  | some a ↦ (a, store)
  | none ↦
      let a = new_account store.next_pk email in
      (a, record store { accounts = store.accounts ++ a ∷ []; next_pk = suc store.next_pk })
]

abbrev pub attach : Text → ℕ → List Draft → List Draft
attach email account [] = []
attach email account (d ∷ drafts) =
    (elim d.parent_account [
      | none ↦
          if iexact d.claimed_email email then record d { parent_account = some account } else d
      | some _ ↦ d
    ])
    ∷ attach email account drafts

-- `attach_claimed_email_apps_to_parent` of apps/registrations/services.py
abbrev pub attach_claimed_email_apps_to_parent : Text → ParentAccount → Store → Store
attach_claimed_email_apps_to_parent email account store = record store {
  drafts = attach email account.pk store.drafts;
}

-- A mail to the address within the last minute.
abbrev pub is_recent : Text → ℕ → Text × ℕ → Bool
is_recent email now (to, at) = text_eq to email && ltb now (at + 60)

-- The old times of the address are dropped.
abbrev pub prune : Text → ℕ → List (Text × ℕ) → List (Text × ℕ)
prune email now sends = keep (λ (to, at). not (text_eq to email) || ltb now (at + 60)) sends

-- `_check_rate_limit`, and the same test in `issue_one_time_code`: the times that are kept, and
-- whether the limit is reached.
abbrev pub check_rate : ℕ → Text → ℕ → Store → Bool × Store
check_rate limit email now store =
    let kept = prune email now store.sends in
    (leb limit (count_if (λ (to, at). text_eq to email) kept), record store { sends = kept })

-- `_record_send`
abbrev pub record_send : Text → ℕ → Store → Store
record_send email now store = record store { sends = (email, now) ∷ store.sends }
