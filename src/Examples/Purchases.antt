-- ===== src/Examples/Purchases.antt =====
-- The theorems on the billing events of internal/billing at concrete inputs.
use glass_eqserver.Prelude.{
  ◌≤◌, ◌↔◌, length, codes, [], ◌∷◌, none, some, false, ◌≡◌, ◌⊎◌, refl, arith, find_row, bytes_eq,
  if◌then◌else◌,
}
use glass_eqserver.Prelude.Int.{pos}
use glass_eqserver.Store.Tables.{
  perpetual_v1, monthly, LicenseState, CheckoutOrder, StripeEvent, Db,
}
use glass_eqserver.Store.Rules.{Ensures}
use glass_eqserver.Activation.System.Section.{left_by}
use glass_eqserver.Billing.Client.{Stripe, valid_stripe_id}
use glass_eqserver.Billing.Decode.{stripe_api_version, decode_billing_event}
use glass_eqserver.Billing.Decode.Accepted.{IsEnvelope, IsSubject, decode_billing_event_iff}
use glass_eqserver.Billing.Monthly.{monthly_invoice_period}
use glass_eqserver.Billing.Monthly.Paid.{PaysUntil, monthly_invoice_period-PaysUntil}
use glass_eqserver.Billing.Ledger.{BillingEvent}
use glass_eqserver.Billing.Processor.{EventProcessor, settle_order, link_order}
use glass_eqserver.Billing.Processor.Fulfilled.{FulfilledOnce, settle_order-FulfilledOnce}
use glass_eqserver.Billing.MonthlyRows.{Snapshot}
use glass_eqserver.Billing.MonthlyCommit.{commit_locked}
use glass_eqserver.Billing.MonthlyCommit.Revision.{
  LeftAlone, CommittedAt, commit_locked-CommittedAt,
}
use glass_eqserver.Billing.Orders.{UniqueOrders}
use glass_eqserver.Billing.Process.{process_event, process}
use glass_eqserver.Billing.Process.Repeated.{process_event-processed}
use glass_eqserver.Billing.Reconciler.{Reconciler, enough_rounds, scan_link}
use glass_eqserver.Billing.Reconciler.Rounds.{scan_link_enough}
use glass_eqserver.Billing.Refunded.{IsRefunded, process-IsRefunded}
use glass_eqserver.Examples.World.{plain_platform, plain_service, one_license, empty_db, quiet}
use glass_eqserver.Examples.StripeObjects.{
  paid_session, monthly_session, monthly_subscription, first_invoice,
}

abbrev plain_stripe : Stripe
plain_stripe = record {
  session = λ id. if bytes_eq id (codes "cs_1") then some paid_session else some monthly_session;
  sessions_of_subscription =
      λ id. record { has_more = false; data_items = some monthly_session ∷ [] };
  sessions_of_link = λ link after. record { has_more = false; data_items = some paid_session ∷ [] };
  subscription = λ id. some monthly_subscription;
  invoice = λ id. some first_invoice;
  refund = λ id. none;
  dispute = λ id. none;
  charge = λ id. none;
  payments_of_intent = λ id. record { has_more = false; data_items = [] };
  sessions_of_payment = λ id. record { has_more = false; data_items = some paid_session ∷ [] };
  canceled = λ id. none;
}

abbrev pub plain_processor : EventProcessor
plain_processor = record {
  checkout = record { platform = plain_platform; live_mode = false };
  stripe = λ n. plain_stripe;
  licenses = plain_service;
  live_mode = false;
  products = record {
    perpetual_v1 = codes "prod_1";
    monthly = codes "prod_2";
    perpetual_price_id = codes "price_1";
    monthly_price_id = codes "price_2";
    perpetual_link_id = codes "plink_1";
    monthly_link_id = codes "plink_2";
  };
}

abbrev pub completed_event : BillingEvent
completed_event = record {
  id = codes "evt_1";
  object = codes "event";
  api_version = stripe_api_version;
  event_type = codes "checkout.session.completed";
  created = pos 1768000000;
  livemode = some false;
  object_id = codes "cs_1";
  object_kind = codes "checkout.session";
}

abbrev perpetual_order : CheckoutOrder
perpetual_order =
    link_order
      (record { plan = perpetual_v1; price_id = codes "price_1"; product_id = codes "prod_1" })
      (codes "cs_1") 5

abbrev monthly_order : CheckoutOrder
monthly_order =
    link_order (record { plan = monthly; price_id = codes "price_2"; product_id = codes "prod_2" })
      (codes "cs_2") 5

abbrev event_row : StripeEvent
event_row = record {
  stripe_event_id = codes "evt_1";
  event_type = codes "checkout.session.completed";
  object_id = codes "cs_1";
  stripe_created_at = 63903600000000000;
  processed = none;
}

-- The event is recorded, and its order waits.
abbrev ordered_db : Db
ordered_db = record empty_db {
  checkout_orders = perpetual_order ∷ [];
  stripe_events = event_row ∷ [];
}

settle_order-FulfilledOnce_example :
    Ensures
      (settle_order plain_processor completed_event paid_session 9 (some perpetual_order))
      ordered_db
      (λ _ d'.
        (d'.licenses ≡ ordered_db.licenses)
        ⊎ FulfilledOnce plain_processor paid_session perpetual_order ordered_db d')
unfolding find_row bytes_eq
settle_order-FulfilledOnce_example =
    settle_order-FulfilledOnce plain_processor completed_event paid_session 9 perpetual_order
      ordered_db refl

abbrev processed_row : StripeEvent
processed_row = record event_row { processed = some (7, codes "fulfilled") }

abbrev processed_db : Db
processed_db = record ordered_db { stripe_events = processed_row ∷ [] }

process_event-processed_example :
    left_by (process_event plain_processor completed_event 9) processed_db quiet ≡ processed_db
unfolding find_row bytes_eq
process_event-processed_example =
    process_event-processed plain_processor completed_event 9 processed_db processed_row refl refl
      quiet

abbrev refunded_db : Db
refunded_db = record ordered_db {
  licenses = record one_license { state = LicenseState.refunded } ∷ [];
}

refunded_db-IsRefunded : IsRefunded (codes "lic_1") refunded_db
unfolding find_row bytes_eq
refunded_db-IsRefunded = record {
  license = record one_license { state = LicenseState.refunded };
  found = refl;
  refunded = refl;
}

process-IsRefunded_example : IsRefunded (codes "lic_1") (
    left_by
      (process plain_processor (λ b. some completed_event) (codes "{}") 63904000000000000)
      refunded_db
      quiet)
process-IsRefunded_example =
    process-IsRefunded (codes "lic_1") plain_processor (λ b. some completed_event) (codes "{}")
      63904000000000000 refunded_db quiet refunded_db-IsRefunded

abbrev plain_reconciler : Reconciler
plain_reconciler = record {
  processor = plain_processor;
  page_stripe = λ link seen. plain_stripe;
  session_stripe = λ link seen n. plain_stripe;
  clock = λ link seen. 9;
  format_day = λ t. codes "20260110";
}

scan_link_enough_example :
    scan_link plain_reconciler 9 20000 0
      (codes "plink_1")
      []
      (record { recovered = 0; first_error = none })
    ≡ scan_link plain_reconciler 9 enough_rounds 0
        (codes "plink_1")
        []
        (record { recovered = 0; first_error = none })
scan_link_enough_example =
    scan_link_enough plain_reconciler 9 20000 (codes "plink_1") []
      (record { recovered = 0; first_error = none }) (omega arith)

abbrev monthly_db : Db
monthly_db = record empty_db {
  checkout_orders = monthly_order ∷ [];
  stripe_events = event_row ∷ [];
}

abbrev monthly_snapshot : Snapshot
monthly_snapshot = record {
  order = monthly_order;
  session = monthly_session;
  subscription = some monthly_subscription;
  initial = some first_invoice;
  latest = some first_invoice;
}

monthly_db-UniqueOrders : UniqueOrders monthly_db.checkout_orders
unfolding find_row
monthly_db-UniqueOrders = (refl, tt)

commit_locked-CommittedAt_example :
    Ensures
      (commit_locked plain_processor completed_event 9 (some monthly_snapshot))
      monthly_db
      (λ _ d'.
        LeftAlone completed_event monthly_db d'
        ⊎ CommittedAt completed_event 9 monthly_snapshot monthly_db d')
commit_locked-CommittedAt_example =
    commit_locked-CommittedAt plain_processor completed_event 9 monthly_snapshot monthly_db
      monthly_db-UniqueOrders

monthly_invoice_period-PaysUntil_example :
    PaysUntil first_invoice monthly_subscription monthly_order 63906196800000000
unfolding monthly_invoice_period valid_stripe_id bytes_eq
monthly_invoice_period-PaysUntil_example =
    monthly_invoice_period-PaysUntil plain_platform first_invoice monthly_subscription monthly_order
      (codes "prod_2") 63906196800000000 refl (omega arith)

decode_billing_event_iff_example :
    (decode_billing_event plain_platform
        (λ b. some completed_event)
        (codes "{}")
        false
        63904000000000000
      ≡ some completed_event)
    ↔ ((length (codes "{}") ≤ 262144)
        × (some completed_event ≡ some completed_event)
        × IsEnvelope plain_platform false 63904000000000000 completed_event
        × IsSubject plain_platform false 63904000000000000 completed_event)
decode_billing_event_iff_example =
    decode_billing_event_iff plain_platform (λ b. some completed_event) (codes "{}") false
      63904000000000000 completed_event
