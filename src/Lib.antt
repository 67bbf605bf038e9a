-- ===== src/Lib.antt =====
-- GlassEQ license server: the licensing service, the entitlement issuer and the billing.
--
-- The server sells and activates licenses. HTTP handlers and workers call the licensing service of
-- internal/activation, which keeps its state in PostgreSQL; it asks the issuer of
-- internal/entitlement for signed tokens. internal/billing handles the events of Stripe's webhook:
-- it asks Stripe for the objects that an event is about, has the licensing service issue licenses
-- for purchases, keeps orders and the `subscriptions` table in step with Stripe, and restricts or
-- restores licenses after refunds and disputes; a daily reconciler looks for purchases that no
-- event has settled.
--
-- The parts and their files:
--   Prelude       tests, byte strings, integers, tables as lists of rows, orders and counts.
--   Platform      what the server calls and does not implement (hashes, encodings, UUIDs, the
--                 AEAD cipher, json.Marshal, the KMS signature), as fields of a record.
--   Entitlement   internal/entitlement/issuer.go: Claims, Validation (validateCommonClaims,
--                 validateMonthlyClaims), Payload (IssuePerpetual, IssueMonthly, issue), KeyId.
--   Store         Tables: the rows of migrations/*.sql. Effect: the monad of a handler, with the
--                 database, the answers of PostgreSQL, SES and KMS, the random source, Go's early
--                 returns, and transactions that an early return rolls back. Rules and Keeps:
--                 reasoning about effects whatever the outside world answers.
--   Activation    internal/activation, a module for each file or group of functions: Service and
--                 Time (values, responses), LicenseKey, Terms (entitlementTerms), Idempotency,
--                 RateLimit, Activate, Lifecycle (refresh, deactivation), Management, Rotation,
--                 RecoveryRequest, RecoverySession, Dispatch (the workers), Retention, Purchase.
--                 Steps and Reads: rules for the steps that the handlers share. System: all of
--                 them together.
--   Billing       internal/billing. Objects: what the code reads of Stripe's objects. Client:
--                 stripe.go and the retrievals of the other files. Perpetual: purchase.go.
--                 Projection and Monthly: subscription.go. Decode, Ledger, Processor and Process:
--                 event.go (decodeBillingEvent, the statements on events and orders, the
--                 settlement of a perpetual purchase, processEvent). MonthlyRows, MonthlyCommit
--                 and MonthlyEvent: monthly_event.go. AdjustmentClient: adjustment_client.go.
--                 Adjustment and AdjustmentView: adjustment.go. AdjustmentRows, AdjustmentApply,
--                 AdjustmentCommit and AdjustmentEvent: adjustment_event.go. Reconciler:
--                 reconciliation.go. Steps, Orders, Events, Kept, AdjustmentKept, Handled and
--                 HandledEvents: what the statements and transactions keep.
--   Examples      a small server, and the theorems at concrete inputs.
--
-- A handler is a function of its input and of the time at which it started; the source reads its
-- clock once. A time counts microseconds from Go's zero time, since every handler truncates to
-- microseconds, but the cleanup, whose fraction is dropped. Numbers of seconds from Stripe are
-- unbounded, where Go's are 64 bits wide. A call of the database, of SES or of KMS consumes one answer: success, an error, or
-- a lock held by another session; a SELECT, INSERT, UPDATE or DELETE that succeeds has the effect
-- of its SQL on the tables. Advisory and row locks, such as the FOR UPDATE and FOR NO
-- KEY UPDATE of a SELECT, are refusals only: the sections of System, one
-- for each transaction and one for each statement outside a transaction, run one after another, in
-- any order and with any arguments. A billing event is a sequence of such sections, between which
-- it talks to Stripe. Stripe is a parameter that may answer differently at each request of an
-- event: the n-th meets `stripe n`, and one that fails ends the event with `stripe`. The loops are
-- recursions on lists, except the reconciler's loop over pages, which has 10,001 rounds: every page
-- that another follows has a session, and the source gives up above 10,000 sessions.
--
-- Not modelled: the HTTP layer, the configuration, the check of the catalog and the start-up; the
-- AWS clients and Stripe's transport; json.Unmarshal, a parameter of the webhook; foreign keys and
-- the length checks of columns, and columns that nothing reads, such as last_stripe_event_id and
-- last_reconciled_at; contexts and timeouts, beyond that a call may fail; the texts of Go's wrapped
-- errors, of which the kind is kept; and the byte encoding of JSON, which is a parameter.
pub mod Prelude
pub mod Platform
pub mod Entitlement
pub mod Store
pub mod Activation
pub mod Billing
pub mod Examples
