-- ===== src/Agreements/Signing.antt =====
-- The way of an agreement to its signature in apps/agreements/services.py: the signing path, the
-- mails, and `mark_agreement_sent`.
use fk_cesis_mms.Base.{
  ℕ, Bool, true, false, not, Option, none, some, List, [], ◌∷◌, ◌++◌, ◌==◌, if◌then◌else◌,
}
use fk_cesis_mms.Base.Text.{Text, is_blank}
use fk_cesis_mms.Errors.{ok, err, cannot_mark_sent, does_not_exist, not_delivered}
use fk_cesis_mms.Models.{
  Agreement, AgreementState, generated, sent, SigningPath, electronic, paper, Member, AgreementMail,
  sent_mail, signed_mail, void_mail, Outgoing, mail, create_submission, agreement_sent, Db,
  find_member,
}
use fk_cesis_mms.Models.Action.{Action, ◌>>=◌, ◌>>◌, pure, gets, or_raise, raise_if, modify}
use fk_cesis_mms.Billing.Store.{current_agreement, add_audit}
use fk_cesis_mms.Agreements.Number.{save_agreement}

abbrev pub update_member : ℕ → (Member → Member) → List Member → List Member
update_member k f [] = []
update_member k f (m ∷ members) = (if m.pk == k then f m else m) ∷ update_member k f members

abbrev pub save_member : ℕ → (Member → Member) → Db → Db
save_member k f db = record db { members = update_member k f db.members }

abbrev pub send : Outgoing → Db → Db
send item db = record db { outbox = db.outbox ++ item ∷ [] }

-- What the mail server or the queue takes; a refusal raises.
unfoldable pub deliver : Outgoing → Action (Unit {0})
deliver item db =
    if db.refuses db.outbox item then (err not_delivered, db) else (ok tt, send item db)

-- Django's `send_mail` to one address with `fail_silently=False`; to an empty address it sends
-- nothing.
unfoldable pub send_mail : Text → Outgoing → Action (Unit {0})
send_mail to item = if is_blank to then pure tt else deliver item

abbrev pub path_eq : SigningPath → SigningPath → Bool
path_eq electronic electronic = true
path_eq paper paper = true
path_eq _ _ = false

abbrev pub is_electronic : SigningPath → Bool
is_electronic electronic = true
is_electronic paper = false

-- `agreement.member`
unfoldable pub member_of : Agreement → Action Member
member_of a db = or_raise (find_member a.member_id db.members) does_not_exist db

-- The application with the preference set, which it is saved with.
abbrev pub with_preference : SigningPath → Member → Member
with_preference path m = elim m.source_application [
  | none ↦ m
  | some application ↦ record m {
    source_application = some (record application { preferred_agreement_signing = some path });
  }
]

abbrev pub with_path : SigningPath → Agreement → Agreement
with_path path a = record a { signing_path = path }

-- The path as the preference of the application. (Where it is that already, the source saves
-- nothing, and this save changes nothing.)
unfoldable pub write_back : Agreement → SigningPath → Action (Unit {0})
write_back a path = do member ← member_of a; modify (save_member member.pk (with_preference path))

-- `set_signing_path`
unfoldable pub set_signing_path : Agreement → SigningPath → Action Agreement
set_signing_path a path = if path_eq a.signing_path path then pure a else (do
  modify (save_agreement a.pk (with_path path))
  write_back a path
  pure (with_path path a))

-- `sync_application_signing_path_to_agreement`, for the member that the application became and the
-- application's preference.
unfoldable pub sync_application_signing_path_to_agreement :
    Option ℕ → Option SigningPath → Action (Unit {0})
sync_application_signing_path_to_agreement none preference = pure tt
sync_application_signing_path_to_agreement (some member_id) preference = do
  current ← gets (λ db. current_agreement member_id db.agreements)
  elim current [
    | none ↦ pure tt
    | some a ↦ elim preference [
      | none ↦ pure tt
      | some desired ↦
          if path_eq a.signing_path desired
          then pure tt
          else modify (save_agreement a.pk (with_path desired))
    ]
  ]

-- `_should_send_email`
abbrev pub should_send_email : SigningPath → AgreementMail → Bool
should_send_email electronic sent_mail = false
should_send_email electronic signed_mail = false
should_send_email electronic void_mail = true
should_send_email paper template = true

-- `_render_and_send_agreement_email`
unfoldable pub send_agreement_email : Agreement → AgreementMail → Action (Unit {0})
send_agreement_email a template =
    if not (should_send_email a.signing_path template) then pure tt else (do
      member ← member_of a
      send_mail member.guardian_email (mail template member.guardian_email))

abbrev pub is_generated : AgreementState → Bool
is_generated generated = true
is_generated _ = false

-- An electronic agreement whose guardian has no address goes to paper.
unfoldable pub path_to_send : Agreement → Action Agreement
path_to_send a =
    if is_electronic a.signing_path
    then (do
      member ← member_of a
      if is_blank member.guardian_email then set_signing_path a paper else pure a)
    else pure a

abbrev pub as_sent : ℕ → Agreement → Agreement
as_sent now a = record a { state = sent; sent_at = some now }

-- What tells the world that the agreement is sent.
unfoldable pub announce_sent : Agreement → Action (Unit {0})
announce_sent b = do
  modify (add_audit (agreement_sent b.pk b.signing_path))
  send_agreement_email b sent_mail
  deliver (create_submission b.pk (is_electronic b.signing_path))

-- `mark_agreement_sent`
unfoldable pub mark_agreement_sent : Agreement → ℕ → Action Agreement
mark_agreement_sent a now = do
  raise_if (not (is_generated a.state)) cannot_mark_sent
  b ← path_to_send a
  modify (save_agreement b.pk (as_sent now))
  announce_sent b
  pure (as_sent now b)
