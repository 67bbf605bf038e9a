-- ===== src/Billing/Ledger.antt =====
-- internal/billing/event.go and adjustment_event.go: the statements on the orders, the events and
-- the restrictions that every billing transaction uses. `FOR UPDATE` only waits.
use glass_eqserver.Prelude.{
  ◌+◌, Bool, true, false, ◌&&◌, ◌||◌, not, Bytes, List, ◌∷◌, Option, none, some, is_some, bytes_eq,
  find_row, exists_row, update_rows, if◌then◌else◌,
}
use glass_eqserver.Prelude.Int.{ℤ, eqb_ℤ}
use glass_eqserver.Store.Tables.{
  Time, Plan, perpetual_v1, monthly, other_plan, CheckoutOrder, StripeEvent, BillingAdjustment, Db,
  order_is_fulfilled, order_is_paid, order_is_pending, is_blocking,
}
use glass_eqserver.Store.Effect.{
  M, Failure, database, invalid_billing_event, snapshot_changed, pure, throw, throw_if, or_throw,
  query, gets, ◌>>=◌, ◌>>◌,
}
use glass_eqserver.Activation.Time.{unix}
use glass_eqserver.Billing.Monthly.{unix_time}

-- The fields of an event, the last two those of the object it is about.
pub record BillingEvent : Type 0 where
  pub id : Bytes
  pub object : Bytes
  pub api_version : Bytes
  pub event_type : Bytes
  pub created : ℤ
  pub livemode : Option Bool
  pub object_id : Bytes
  pub object_kind : Bytes

-- A Go `error`.
unfoldable pub throw_error : Option Failure → M (Unit {0})
throw_error none = pure tt
throw_error (some e) = throw e

-- A statement under an `if` without an `else`.
unfoldable pub when : Bool → M (Unit {0}) → M (Unit {0})
when true m = m
when false m = pure tt

abbrev pub holds_text : Option Bytes → Bytes → Bool
holds_text none text = false
holds_text (some a) text = bytes_eq a text

abbrev pub same_text : Option Bytes → Option Bytes → Bool
same_text a none = false
same_text a (some b) = holds_text a b

-- The CHECK constraints of `checkout_orders`.
abbrev pub fulfilment_fits : CheckoutOrder → Bool
fulfilment_fits o =
    if order_is_fulfilled o.state
    then is_some o.license_id && is_some o.fulfilled_at
    else not (is_some o.license_id) && not (is_some o.fulfilled_at)

abbrev pub session_fits : CheckoutOrder → Bool
session_fits o =
    is_some o.stripe_checkout_session_id
    || (order_is_pending o.state
        && not (is_some o.stripe_payment_intent_id)
        && not (is_some o.stripe_subscription_id))

abbrev pub plan_reference_fits : CheckoutOrder → Plan → Bool
plan_reference_fits o perpetual_v1 = not (is_some o.stripe_subscription_id)
plan_reference_fits o monthly = not (is_some o.stripe_payment_intent_id)
plan_reference_fits o (other_plan word) = false

abbrev pub paid_reference_fits : CheckoutOrder → Plan → Bool
paid_reference_fits o perpetual_v1 = is_some o.stripe_payment_intent_id
paid_reference_fits o monthly = is_some o.stripe_subscription_id
paid_reference_fits o (other_plan word) = false

unfoldable pub order_allowed : CheckoutOrder → Bool
order_allowed o =
    fulfilment_fits o
    && session_fits o
    && plan_reference_fits o o.plan
    && (not (order_is_paid o.state || order_is_fulfilled o.state) || paid_reference_fits o o.plan)

abbrev pub is_order : Bytes → CheckoutOrder → Bool
is_order id o = bytes_eq o.id id

-- The UNIQUE constraints.
abbrev pub order_collides : CheckoutOrder → CheckoutOrder → Bool
order_collides new o =
    same_text o.stripe_checkout_session_id new.stripe_checkout_session_id
    || same_text o.stripe_payment_intent_id new.stripe_payment_intent_id
    || same_text o.stripe_subscription_id new.stripe_subscription_id
    || same_text o.license_id new.license_id

-- INSERT … ON CONFLICT (id) DO NOTHING.
unfoldable pub insert_order : CheckoutOrder → Db → Option (Db × Unit {0})
unfolding order_allowed
insert_order new d =
    if exists_row (is_order new.id) d.checkout_orders
    then some (d, tt)
    else if order_allowed new && not (exists_row (order_collides new) d.checkout_orders)
    then some (record d { checkout_orders = new ∷ d.checkout_orders }, tt)
    else none

abbrev pub other_collides : CheckoutOrder → CheckoutOrder → Bool
other_collides new o = not (is_order new.id o) && order_collides new o

abbrev pub with_orders : Db → List CheckoutOrder → Db
with_orders d orders = record d { checkout_orders = orders }

-- UPDATE checkout_orders … WHERE id = $1.
unfoldable pub update_order : Bytes → (CheckoutOrder → CheckoutOrder) → Db → Option (Db × Unit {0})
unfolding order_allowed
update_order id f d = elim (find_row (is_order id) d.checkout_orders) [
  | none ↦ some (d, tt)
  | some o ↦
      if order_allowed (f o) && not (exists_row (other_collides (f o)) d.checkout_orders)
      then some (with_orders d (update_rows (is_order id) f d.checkout_orders), tt)
      else none
]

abbrev pub advanced : CheckoutOrder → CheckoutOrder
advanced o = record o { billing_revision = o.billing_revision + 1 }

abbrev pub is_event : Bytes → StripeEvent → Bool
is_event id e = bytes_eq e.stripe_event_id id

abbrev pub new_event : BillingEvent → StripeEvent
unfolding unix_time
new_event e = record {
  stripe_event_id = e.id;
  event_type = e.event_type;
  object_id = e.object_id;
  stripe_created_at = unix_time e.created;
  processed = none;
}

-- INSERT … ON CONFLICT (stripe_event_id) DO NOTHING.
unfoldable pub insert_event : BillingEvent → Db → Option (Db × Unit {0})
insert_event e d = some (
  if exists_row (is_event e.id) d.stripe_events
      then d
      else record d { stripe_events = new_event e ∷ d.stripe_events },
  tt,
)

abbrev pub processed_with : Time → Bytes → StripeEvent → StripeEvent
processed_with now outcome e = record e { processed = some (now, outcome) }

unfoldable pub complete_event : Bytes → Time → Bytes → Db → Option (Db × Unit {0})
complete_event id now outcome d = some (
  record d {
    stripe_events = update_rows (is_event id) (processed_with now outcome) d.stripe_events;
  },
  tt,
)

unfoldable pub same_event : BillingEvent → StripeEvent → Bool
same_event e row =
    bytes_eq row.event_type e.event_type
    && bytes_eq row.object_id e.object_id
    && eqb_ℤ (unix row.stripe_created_at) e.created

-- Whether the recorded event is processed; a record that differs from the event is refused.
unfoldable pub matching_billing_event : BillingEvent → M Bool
matching_billing_event e = do
  found ← query (λ d. find_row (is_event e.id) d.stripe_events)
  row ← or_throw found database
  throw_if (not (same_event e row)) invalid_billing_event
  pure (is_some row.processed)

abbrev pub is_unsettled : Bytes → BillingAdjustment → Bool
is_unsettled order_id a = bytes_eq a.order_id order_id && (a.pending || a.cancel_required)

abbrev pub is_blocked_by : Bytes → BillingAdjustment → Bool
is_blocked_by order_id a = bytes_eq a.order_id order_id && is_blocking a.state

-- Whether a refund or a dispute blocks the order; one that is not settled makes the event retry.
unfoldable pub billing_restriction : Bytes → M Bool
billing_restriction order_id = do
  pending ← query (λ d. exists_row (is_unsettled order_id) d.billing_adjustments)
  blocked ← gets (λ d. exists_row (is_blocked_by order_id) d.billing_adjustments)
  throw_if pending snapshot_changed
  pure blocked
