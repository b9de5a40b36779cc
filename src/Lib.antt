-- ===== src/Lib.antt =====
-- Verification library of the FK Cesis member management system: a model of the agreements and of
-- the billing core of the Django project, with the theorems about it.
--
-- The program keeps members, their agreements, and for each member and season one billing record
-- with its invoices. An agreement is generated with a number, sent on paper or electronically,
-- signed, and later amended, voided or discontinued (apps/agreements/services.py). Its signature
-- sends a signal that creates a draft record (apps/billing/signals.py, apps/billing/services.py): the
-- price is the part of the plan's amount that falls in the calendar year of the first billing
-- month, less a discount for the member's rank among the signed agreements of its guardian. Staff
-- renew, recreate, recompute and reassign records, and a record's final amount becomes invoices.
--
-- Files:
-- - Base: numbers, lists, integers, and texts as lists of ASCII codes with Python's `int`, `split`
--   and zero-padded formats (Base/Text), with the laws of those (Base/Text/Digits, Fixed).
-- - Errors: the exceptions, one constructor for a message, and results.
-- - Models: the rows of apps/members, apps/registrations, apps/agreements and apps/billing
--   (models.py of each) and the database; Models/Action: a service call as a function of the
--   database that returns or raises, with `transaction.atomic()`.
-- - Billing/Money, Calendar, Plan, Month, Schedule, Family: the pure functions of
--   apps/billing/services.py under their own names; the loops over amounts and over candidates are
--   recursions on the list.
-- - Billing/Store: the queries and updates that the services share.
-- - Billing/Draft: `_create_draft_billing_for_member` (`create_draft_billing`),
--   `renew_member_billing`, `recreate_missing_billing_record`.
-- - Billing/Records: `recompute_billing_record`, `roll_up_payment_status`,
--   `materialize_installments`.
-- - Billing/Reassign: `reassign_draft_billing_record`.
-- - Billing/Discontinue: `is_invoice_due_to_send`, `create_discontinuation_adjustments`.
-- - Agreements/Clock: the local time as a parameter, with the law that a time lies in the year of
--   its date; Agreements/Number: `_next_agreement_sequence_for_year`, `_assign_agreement_number`;
--   Create: `create_agreement_for_member`, `regenerate_agreement`; Signing: `set_signing_path`,
--   `sync_application_signing_path_to_agreement`, `mark_agreement_sent` and the mails; Signed:
--   `mark_agreement_signed`, `void_agreement`; Setup: `set_billing_setup`; Amend:
--   `record_minor_amendment`, `start_material_amendment`, `discontinue_agreement`.
-- - Agreements/States, Rows: the order of the states, what a call may make of a row (`Succeeds`),
--   the rows that the constraints allow, and how calls evolve them (`Evolves`, an inductive
--   relation); Effects: each service evolves the rows; Run: commands and runs of them; Laws: what
--   single services guarantee.
-- - Accounts/Store: the rows of apps/accounts/models.py and the times of mails, as a store of its
--   own; Accounts/Codes, Links, Email: the one-time codes, the magic links and
--   `change_parent_email` of apps/accounts/services.py. They read only these rows, so that they
--   stand beside the database of the other services.
-- - AdminHub/Pipeline: the rows that apps/admin_hub/pipeline.py loads for a registration
--   (Load: `load_pipeline_objects`) and the states of its seven steps (`build_pipeline`); the key
--   "signed" is `signature` here, and the texts beside a step are left out.
-- - Below each of these stand its laws, and in Billing/Tests, Agreements/Tests, Accounts/Tests and
--   AdminHub/Tests runs on concrete rows.
--
-- Amounts are integers in cents and percentages are hundredths of a percent, so that a rounding to
-- cents is a rounded quotient. The walk past skipped months has fuel 12, since the source raises at
-- the thirteenth advance; `str` of a number has the number's successor as fuel, which is enough
-- since each round divides by ten. The attempts at a number have fuel 5, which is the source's bound.
--
-- Not modelled: the row lock on the guardian (each call is one step, so no two calls interleave, and
-- a second attempt at a number reads what the first one read), the texts of mails (a mail is an item
-- of the database's `outbox`, and so is a job for the queue; what the mail server and the queue
-- refuse is a parameter, the field `refuses` of the database, and a refusal raises), the upload of signed documents, Invoice Ninja, DocuSeal, admin screens, the lengths of columns, texts
-- outside ASCII, the metadata and labels of audit rows beyond those named, and where the database
-- sorts NULLs, which is a parameter of the functions that sort (`nulls_last`). The setting
-- AGREEMENT_NUMBER_PREFIX is a parameter too (`setting`), and so are the digest of `hashlib`
-- (`hash`), what `secrets` draws, and the limits and lifetimes of codes and links. A call reads the
-- time once (`now`). An object that a caller passes in is a value beside the database, as in the ORM; a call returns the
-- changed object. Of the registrations, members and other apps only the rows named above are
-- modelled.
pub mod Base
pub mod Errors
pub mod Models
pub mod Billing
pub mod Agreements
pub mod Accounts
pub mod AdminHub
