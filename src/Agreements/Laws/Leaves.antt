-- ===== src/Agreements/Laws/Leaves.antt =====
-- What the end of a participation leaves.
use fk_cesis_mms.Base.{
  ℕ, ◌≡◌, refl, sym, ap, ◌∙◌, Option, some, List, [], ◌∷◌, length, ◌==◌, Bool-cases, ◌⊎◌, inl, inr,
  ==_refl,
}
use mathlib.Core.Path.{subst}
use fk_cesis_mms.Base.Text.{Text}
use fk_cesis_mms.Errors.{
  Error, Result, ok, err, Result-cases, not_delivered, discontinue_needs_signed,
}
use fk_cesis_mms.Models as Models
use fk_cesis_mms.Models.{
  Agreement, Actor, Member, BillingInvoice, Db, discontinued, find_agreement, find_member,
  discontinued_mail, member_discontinued,
}
use fk_cesis_mms.Models.Action.{Action, ◌>>◌, modify, pure}
use fk_cesis_mms.Billing.Store.{add_audit}
use fk_cesis_mms.Billing.Calendar.{Date}
use fk_cesis_mms.Billing.Discontinue.{
  selected_of, check_all, cancel_all, save_invoice, cancelled, process_selected,
  create_discontinuation_adjustments,
}
use fk_cesis_mms.Models.Action.Bind.{first_value}
use fk_cesis_mms.Billing.Reassign.{update_agreement}
use fk_cesis_mms.Agreements.Number.{save_agreement}
use fk_cesis_mms.Agreements.Signing.{update_member, save_member}
use fk_cesis_mms.Agreements.Amend.{
  is_signed, add_event, end_event, credit_summary, as_discontinued, leaving, end_participation,
  discontinue_agreement,
}
use fk_cesis_mms.Agreements.Rows.Quiet.{adjustments-Quiet}
use fk_cesis_mms.Agreements.Effects.Save.{find-saved}
use fk_cesis_mms.Agreements.Effects.Ends.{announce_end, discontinue-refused}
use fk_cesis_mms.Agreements.Laws.Delivers.{
  Keeps, >>=-Keeps, pure-Keeps, add_audit-Keeps, send_mail-Keeps, enqueue-Keeps, RaisesUndelivered,
  >>=-RaisesUndelivered, pure-RaisesUndelivered, modify-RaisesUndelivered,
  send_mail-RaisesUndelivered, enqueue-RaisesUndelivered,
}
use fk_cesis_mms.Agreements.Laws.Ends.{atomic-returns, atomic-raises, block, concluded, loaded}

cancel_all-members :
    (now : ℕ) (reason : Text) (selected : List BillingInvoice) (db : Db)
    → (cancel_all now reason selected db).members ≡ db.members
unfolding cancel_all
cancel_all-members now reason [] db = refl
cancel_all-members now reason (i ∷ rest) db =
    cancel_all-members now reason rest (save_invoice (cancelled now reason i) db)

process-members :
    (selected : List BillingInvoice) (reason : Text) (now : ℕ) (db : Db)
    → (process_selected selected reason now db).1.members ≡ db.members
unfolding process_selected
process-members selected reason now db = elim (Result-cases (check_all selected)) [
  | inl (u, e) ↦ rw e (cancel_all-members now reason selected db)
  | inr (x, e) ↦ rw e refl
]

adjustments-members :
    (member_id : ℕ) (ids : List ℕ) (reason : Text) (now : ℕ) (db : Db)
    → (create_discontinuation_adjustments member_id ids reason now db).1.members ≡ db.members
unfolding create_discontinuation_adjustments
adjustments-members member_id [] reason now db = refl
adjustments-members member_id (k ∷ ids) reason now db =
    let selected = selected_of member_id (k ∷ ids) db.records in
    elim (Bool-cases (length selected == length (k ∷ ids))) [
      | inl e ↦ rw e (process-members selected reason now db)
      | inr e ↦ rw e refl
    ]

-- The member that was saved is found again.
find-updated :
    (k : ℕ) (f : Member → Member) (members : List Member) (m : Member)
    → ((n : Member) → (f n).pk ≡ n.pk)
    → find_member k members ≡ some m
    → find_member k (update_member m.pk f members) ≡ some (f m)
find-updated k f [] m key h = absurd (cc)
find-updated k f (n ∷ members) m key h = elim (Bool-cases (n.pk == k)) [
  | inl e ↦
      let same : n ≡ m = cc (rw e at h) in
      subst (λ x. find_member k (update_member x.pk f (n ∷ members)) ≡ some (f x)) same
        (rw (==_refl n.pk, key n, e) refl)
  | inr e ↦
      let rest = find-updated k f members m key (rw e at h) in
      elim (Bool-cases (n.pk == m.pk)) [ inl g ↦ rw (g, key n, e) rest | inr g ↦ rw (g, e) rest ]
]

module _ (a : Agreement) (actor : Option Actor) (date : Date) (reason : Text) (ids : List ℕ)
    (now : ℕ) (db : Db) (member : Member) (stored : find_agreement a.pk db.agreements ≡ some a)
    (found : find_member a.member_id db.members ≡ some member) where
  -- The agreement and the member are discontinued.
  abbrev pub HasLeft : Db → Type 0
  HasLeft db' =
      (find_agreement a.pk db'.agreements ≡ some (record a { state = discontinued }))
      × (find_member a.member_id db'.members
          ≡ some (record member {
            status = Models.MemberStatus.discontinued;
            discontinued_effective_date = some date;
            discontinuation_reason = reason;
            discontinued_at = some now;
          }))

  -- The block after the adjustments.
  abbrev rest_of_block : List (ℕ × Text) → Action (List (ℕ × Text))
  rest_of_block actions =
      modify (save_agreement a.pk as_discontinued)
      >> (modify (save_member member.pk (leaving date reason now))
          >> (modify (add_event (end_event a.pk date reason actor actions)) >> pure actions))

  block-HasLeft :
      (actions : List (ℕ × Text))
      → (block a actor date reason ids now db member db).0 ≡ ok actions
      → HasLeft (block a actor date reason ids now db member db).1
  unfolding block end_participation
  block-HasLeft actions h =
      let adjust = create_discontinuation_adjustments member.pk ids reason now in
      let quiet = adjustments-Quiet member.pk ids reason now in
      let (rows, _) = quiet.leaves db in
      let members = adjustments-members member.pk ids reason now db in
      let (made, _, _, same) = first_value adjust rest_of_block db actions h in
      (
        ap (λ d. find_agreement a.pk d.agreements) same
            ∙ ap (λ rs. find_agreement a.pk (update_agreement a.pk as_discontinued rs)) rows
            ∙ find-saved a.pk as_discontinued a db.agreements stored refl,
        ap (λ d. find_member a.member_id d.members) same
            ∙ ap
                (λ ms.
                  find_member a.member_id (update_member member.pk (leaving date reason now) ms))
                members
            ∙ find-updated a.member_id (leaving date reason now) db.members member (λ n. refl)
                found,
      )

  announce-Keeps :
      (actions : List (ℕ × Text))
      → Keeps (announce_end a actor date reason ids now db member actions)
  announce-Keeps actions = >>=-Keeps (enqueue-Keeps actions) (λ _.
      >>=-Keeps
        (send_mail-Keeps member.guardian_email
          (discontinued_mail member.guardian_email date reason (credit_summary actions)))
        (λ _.
          >>=-Keeps (add_audit-Keeps (member_discontinued member.pk date reason 0 (length actions)))
            (λ _. pure-Keeps (as_discontinued a))))

  announce-RaisesUndelivered :
      (actions : List (ℕ × Text))
      → RaisesUndelivered (announce_end a actor date reason ids now db member actions)
  announce-RaisesUndelivered actions =
      >>=-RaisesUndelivered (enqueue-RaisesUndelivered actions) (λ _.
        >>=-RaisesUndelivered
          (send_mail-RaisesUndelivered member.guardian_email
            (discontinued_mail member.guardian_email date reason (credit_summary actions)))
          (λ _.
            >>=-RaisesUndelivered
              (modify-RaisesUndelivered
                (add_audit (member_discontinued member.pk date reason 0 (length actions))))
              (λ _. pure-RaisesUndelivered (as_discontinued a))))

  -- How a call ends: it has raised and changed nothing; or the agreement and the member have left,
  -- and then it has returned or raised for a refused delivery.
  abbrev pub EndsWell : Result Agreement × Db → Type 0
  EndsWell out =
      (((e : Error) × (out.0 ≡ err e)) × (out.1 ≡ db))
      ⊎ (HasLeft out.1 × (((b : Agreement) × (out.0 ≡ ok b)) ⊎ (out.0 ≡ err not_delivered)))

  announce-EndsWell :
      (actions : List (ℕ × Text)) (db' : Db)
      → HasLeft db'
      → EndsWell (announce_end a actor date reason ids now db member actions db')
  announce-EndsWell actions db' (row, left) =
      let call = announce_end a actor date reason ids now db member actions in
      let kept = announce-Keeps actions in
      let only = announce-RaisesUndelivered actions in
      let (_, members, rows) = kept.keeps db' in
      inr (
        (ap (find_agreement a.pk) rows ∙ row, ap (find_member a.member_id) members ∙ left),
        elim (Result-cases (call db').0) [
          | inl (b, e) ↦ inl (b, e)
          | inr (x, e) ↦ inr (e ∙ ap err (only.raises db' x e))
        ],
      )

  -- A discontinuation of a stored agreement with a stored member either raises and has changed
  -- nothing, or it has stored both as discontinued, the member with the date, the reason and the
  -- time of the call; then it returns, or raises because a job or the mail was refused after the
  -- commit.
  pub discontinue_agreement-EndsWell :
      EndsWell (discontinue_agreement a actor date reason ids now db)
  discontinue_agreement-EndsWell = elim (Bool-cases (is_signed a.state)) [
    | inr e ↦
        subst EndsWell (sym (discontinue-refused a actor date reason ids now db e))
          (inl ((discontinue_needs_signed, refl), refl))
    | inl e ↦ elim (Result-cases (block a actor date reason ids now db member db).0) [
      | inl (actions, is) ↦
          subst EndsWell
            (sym (
              loaded a actor date reason ids now db member e found
              ∙ ap (concluded a actor date reason ids now db member) (
                  atomic-returns a actor date reason ids now db
                    (block a actor date reason ids now db member) actions is)))
            (announce-EndsWell actions (block a actor date reason ids now db member db).1
              (block-HasLeft actions is))
      | inr (x, is) ↦
          subst EndsWell
            (sym (
              loaded a actor date reason ids now db member e found
              ∙ ap (concluded a actor date reason ids now db member) (
                  atomic-raises a actor date reason ids now db
                    (block a actor date reason ids now db member) x is)))
            (inl ((x, refl), refl))
    ]
  ]
