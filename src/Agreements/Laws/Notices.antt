-- ===== src/Agreements/Laws/Notices.antt =====
-- What is announced to the guardian when an agreement is sent.
use fk_cesis_mms.Base.{ℕ, ◌≡◌, refl, ap, ◌∙◌, true, false, some, List, [], ◌∷◌, ◌++◌}
use fk_cesis_mms.Base.Text.{Text}
use fk_cesis_mms.Errors.{ok}
use fk_cesis_mms.Models.{
  Agreement, SigningPath, electronic, paper, Member, Outgoing, mail, AgreementMail, sent_mail,
  create_submission, agreement_sent, Db, find_member,
}
use fk_cesis_mms.Models.Action.Bind.{bind-ok}
use fk_cesis_mms.Billing.Store.{add_audit}
use fk_cesis_mms.Agreements.Signing.{
  member_of, announce_sent, send_agreement_email, should_send_email, deliver, send, send_mail,
  is_electronic,
}

-- The path on which an agreement is sent: the electronic one needs an address.
abbrev pub sending_path : SigningPath → Text → SigningPath
sending_path electronic [] = paper
sending_path electronic (c ∷ s) = electronic
sending_path paper email = paper

-- What goes out: a submission that mails the guardian, or else the club's own mail, where there is
-- an address, and a submission that mails nobody.
abbrev pub notices : SigningPath → ℕ → Text → List Outgoing → List Outgoing
notices electronic k email box = box ++ create_submission k true ∷ []
notices paper k [] box = box ++ create_submission k false ∷ []
notices paper k (c ∷ s) box = (box ++ mail sent_mail (c ∷ s) ∷ []) ++ create_submission k false ∷ []

-- Each mail and each job is taken.
abbrev pub TakesAll : Db → Type 0
TakesAll db = (box : List Outgoing) (item : Outgoing) → db.refuses box item ≡ false

deliver-taken : (item : Outgoing) (db : Db) → TakesAll db → deliver item db ≡ (ok tt, send item db)
unfolding deliver
deliver-taken item db takes = rw (takes db.outbox item) refl

mail-none :
    (template : AgreementMail) (b : Agreement) (db : Db)
    → should_send_email b.signing_path template ≡ false
    → send_agreement_email b template db ≡ (ok tt, db)
unfolding send_agreement_email
mail-none template b db e = rw e refl

member-here :
    (b : Agreement) (m : Member) (db : Db)
    → find_member b.member_id db.members ≡ some m
    → member_of b db ≡ (ok m, db)
unfolding member_of
member-here b m db found = rw found refl

mail-one :
    (template : AgreementMail) (b : Agreement) (m : Member) (db : Db)
    → should_send_email b.signing_path template ≡ true
    → find_member b.member_id db.members ≡ some m
    → send_agreement_email b template db
      ≡ send_mail m.guardian_email (mail template m.guardian_email) db
unfolding send_agreement_email
mail-one template b m db e found = rw e (
    bind-ok (member_of b) (λ n. send_mail n.guardian_email (mail template n.guardian_email)) db m db
      (member-here b m db found))

mail-empty : (item : Outgoing) (db : Db) → send_mail [] item db ≡ (ok tt, db)
unfolding send_mail
mail-empty item db = refl

mail-address :
    (c : ℕ) (s : Text) (item : Outgoing) (db : Db) → send_mail (c ∷ s) item db ≡ deliver item db
unfolding send_mail
mail-address c s item db = refl

-- The announcement, after its mail.
announce-after :
    (b : Agreement) (db db' : Db)
    → send_agreement_email b sent_mail (add_audit (agreement_sent b.pk b.signing_path) db)
      ≡ (ok tt, db')
    → announce_sent b db ≡ deliver (create_submission b.pk (is_electronic b.signing_path)) db'
unfolding announce_sent
announce-after b db db' h =
    bind-ok (send_agreement_email b sent_mail)
      (λ _. deliver (create_submission b.pk (is_electronic b.signing_path)))
      (add_audit (agreement_sent b.pk b.signing_path) db) tt db' h

announce-box :
    (b : Agreement) (db db' : Db) (box : List Outgoing)
    → send_agreement_email b sent_mail (add_audit (agreement_sent b.pk b.signing_path) db)
      ≡ (ok tt, db')
    → TakesAll db'
    → db'.outbox ≡ box
    → ((announce_sent b db).0 ≡ ok tt)
      × ((announce_sent b db).1.outbox
          ≡ box ++ create_submission b.pk (is_electronic b.signing_path) ∷ [])
announce-box b db db' box h takes same =
    let item = create_submission b.pk (is_electronic b.signing_path) in
    let call = announce-after b db db' h ∙ deliver-taken item db' takes in
    (ap (λ out. out.0) call, ap (λ out. out.1.outbox) call ∙ ap (λ l. l ++ item ∷ []) same)

pub announce_lem :
    (path : SigningPath) (email : Text) (b : Agreement) (m : Member) (db : Db)
    → TakesAll db
    → b.signing_path ≡ path
    → m.guardian_email ≡ email
    → find_member b.member_id db.members ≡ some m
    → ((announce_sent b db).0 ≡ ok tt)
      × ((announce_sent b db).1.outbox ≡ notices path b.pk email db.outbox)
announce_lem electronic email b m db takes e f found =
    let db' = add_audit (agreement_sent b.pk b.signing_path) db in
    let (done, box) =
      announce-box b db db' db.outbox (mail-none sent_mail b db' (rw e refl)) takes refl in
    (done, box ∙ ap (λ p. db.outbox ++ create_submission b.pk (is_electronic p) ∷ []) e)
announce_lem paper [] b m db takes e f found =
    let db' = add_audit (agreement_sent b.pk b.signing_path) db in
    let call =
      mail-one sent_mail b m db' (rw e refl) found
      ∙ ap (λ s. send_mail s (mail sent_mail s) db') f
      ∙ mail-empty (mail sent_mail []) db' in
    let (done, box) = announce-box b db db' db.outbox call takes refl in
    (done, box ∙ ap (λ p. db.outbox ++ create_submission b.pk (is_electronic p) ∷ []) e)
announce_lem paper (c ∷ s) b m db takes e f found =
    let db' = add_audit (agreement_sent b.pk b.signing_path) db in
    let item = mail sent_mail (c ∷ s) in
    let call =
      mail-one sent_mail b m db' (rw e refl) found
      ∙ ap (λ t. send_mail t (mail sent_mail t) db') f
      ∙ mail-address c s item db'
      ∙ deliver-taken item db' takes in
    let (done, box) = announce-box b db (send item db') (db.outbox ++ item ∷ []) call takes refl in
    (
      done,
      box ∙ ap (λ p. (db.outbox ++ item ∷ []) ++ create_submission b.pk (is_electronic p) ∷ []) e,
    )
