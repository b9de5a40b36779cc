-- ===== src/Accounts/Tests.antt =====
-- Runs of apps/accounts on concrete rows. The digest is a code put before the text.
use fk_cesis_mms.Base.{suc, ℕ, ◌≡◌, refl, true, none, some, [], ◌∷◌, ◌≤◌, ◌↔◌, count_if}
use fk_cesis_mms.Base.Text.{Text, codes, padded}
use fk_cesis_mms.Errors.{ok, err, invalid_token}
use fk_cesis_mms.Accounts.Store.{
  ParentAccount, MagicLinkToken, VerificationCode, Store, get_or_create, is_recent,
}
use fk_cesis_mms.Accounts.Codes.{verify_one_time_code, is_one_time_code_valid, issue_one_time_code}
use fk_cesis_mms.Accounts.Codes.Once.{verify_again, valid_iff}
use fk_cesis_mms.Accounts.Codes.Rate.{sent_log, issue-send_bound}
use fk_cesis_mms.Accounts.Links.{consume_magic_link}
use fk_cesis_mms.Accounts.Links.Once.{consume_once}
use fk_cesis_mms.Accounts.Email.{change_parent_email}
use fk_cesis_mms.Accounts.Email.Unique.{HasUniqueEmails, change-HasUniqueEmails}

abbrev digest : Text → Text
digest s = b'#' ∷ s

abbrev address : Text
address = codes "a@b.lv"

abbrev code : Text
code = codes "000042"

abbrev session : Text
session = codes "key"

abbrev parent : ParentAccount
parent = record { pk = 1; email = address; is_active = true }

abbrev neighbour : ParentAccount
neighbour = record { pk = 2; email = codes "c@d.lv"; is_active = true }

-- Bound to a session, and good until second 300.
abbrev bound_code : VerificationCode
bound_code = record {
  pk = 3;
  email = address;
  code_hash = digest code;
  expires_at = 300;
  used_at = none;
  origin_session_key = some session;
}

abbrev old_code : VerificationCode
old_code = record bound_code { pk = 4; origin_session_key = none }

abbrev token : MagicLinkToken
token = record {
  pk = 5;
  account_id = some 1;
  claimed_email = [];
  token_hash = digest code;
  expires_at = 300;
  sent_at = none;
  used_at = none;
}

abbrev store : Store
store = record {
  accounts = parent ∷ neighbour ∷ [];
  tokens = token ∷ [];
  codes = bound_code ∷ old_code ∷ [];
  drafts = [];
  sends = [];
  next_pk = 6;
}

abbrev early : ℕ
early = 100

abbrev late : ℕ
late = 200

verified_run : (verify_one_time_code digest address code (some session) early store).0 ≡ ok parent
unfolding verify_one_time_code get_or_create
verified_run = refl

verify_again_example :
    let store' = (verify_one_time_code digest address code (some session) early store).1 in
    verify_one_time_code digest address code (some session) late store' ≡ (ok parent, store')
verify_again_example =
    verify_again digest address code (some session) early bound_code store parent refl verified_run
      late refl refl

valid_iff_example :
    (is_one_time_code_valid digest address code none late store ≡ true)
    ↔ ((a : ParentAccount) × ((verify_one_time_code digest address code none late store).0 ≡ ok a))
valid_iff_example = valid_iff digest address code none store old_code refl late refl

abbrev limit : ℕ
limit = 3

abbrev ttl : ℕ
ttl = 300

abbrev draw : ℕ
draw = 42

issued_run : (issue_one_time_code digest limit ttl address none draw late store).0 ≡ ok code
unfolding issue_one_time_code padded
issued_run = refl

issue-send_bound_example :
    let log = sent_log digest limit ttl address none draw late store in
    (count_if (is_recent address late) log ≡ suc (count_if (is_recent address late) store.sends))
    × (count_if (is_recent address late) log ≤ limit)
issue-send_bound_example =
    issue-send_bound digest limit ttl address none draw late store code issued_run

consumed_run : (consume_magic_link digest code early store).0 ≡ ok parent
unfolding consume_magic_link
consumed_run = refl

consume_once_example :
    let store' = (consume_magic_link digest code early store).1 in
    consume_magic_link digest code late store' ≡ (err invalid_token, store')
consume_once_example = consume_once digest code early store parent late (tt, tt) consumed_run

abbrev new_address : Text
new_address = codes " E@F.lv "

change-HasUniqueEmails_example :
    HasUniqueEmails (change_parent_email parent new_address store).1.accounts
change-HasUniqueEmails_example =
    change-HasUniqueEmails parent new_address store ((refl, tt), (tt, tt))
