-- ===== src/Billing/MonthlyRows.antt =====
-- internal/billing/monthly_event.go: the rows that a monthly purchase reads and writes.
use glass_eqserver.Prelude.{
  ◌+◌, Bool, true, false, ◌&&◌, ◌||◌, not, Bytes, List, [], ◌∷◌, Option, none, some, leb, get_or,
  bytes_eq, find_row, exists_row, select_rows, update_rows, if◌then◌else◌, ◌==◌,
}
use glass_eqserver.Entitlement.Claims.{BillingState, recovering, ending, lapsed, other_billing}
use glass_eqserver.Entitlement.Payload.{billing_word}
use glass_eqserver.Store.Tables.{Time, Subscription, CheckoutOrder, OrderState, Db}
use glass_eqserver.Store.Effect.{M, invalid_subscription, pure, throw, query, ◌>>=◌}
use glass_eqserver.Billing.Objects.{
  SubscriptionStatus, canceled, incomplete_expired, CancellationReason, cancellation_requested,
  SessionStatus, expired, CheckoutSession, StripeSubscription, Invoice, some_such,
}
use glass_eqserver.Billing.Projection.{SubscriptionProjection, recovery_period}
use glass_eqserver.Billing.Ledger.{holds_text, same_text, is_order}

abbrev pub is_one_of : Bytes → Bytes → Bytes → CheckoutOrder → Bool
is_one_of session_id subscription_id order_id o =
    holds_text o.stripe_checkout_session_id session_id
    || holds_text o.stripe_subscription_id subscription_id
    || is_order order_id o

-- At most one row is expected.
unfoldable pub sole_order : List CheckoutOrder → M (Option CheckoutOrder)
sole_order [] = pure none
sole_order (o ∷ []) = pure (some o)
sole_order (o ∷ other ∷ rest) = throw invalid_subscription

unfoldable pub read_monthly_order : Bytes → Bytes → Bytes → M (Option CheckoutOrder)
unfolding sole_order
read_monthly_order session_id subscription_id order_id = do
  rows ← query λ d. select_rows (is_one_of session_id subscription_id order_id) d.checkout_orders
  sole_order rows

-- What was read before the transaction.
pub record Snapshot : Type 0 where
  pub order : CheckoutOrder
  pub session : CheckoutSession
  pub subscription : Option StripeSubscription
  pub initial : Option Invoice
  pub latest : Option Invoice

-- The CHECK and UNIQUE constraints of `subscriptions`.
abbrev pub stored_state : BillingState → Bool
stored_state BillingState.active = true
stored_state recovering = true
stored_state ending = true
stored_state lapsed = true
stored_state _ = false

abbrev pub is_of_license : Bytes → Subscription → Bool
is_of_license license_id r = bytes_eq r.license_id license_id

abbrev pub takes_invoice : Subscription → Subscription → Bool
takes_invoice new r =
    not (is_of_license new.license_id r)
    && same_text r.last_paid_invoice_id new.last_paid_invoice_id

unfoldable pub subscription_allowed : Subscription → Db → Bool
subscription_allowed new d =
    stored_state new.state
    && leb new.billing_period_end new.recovery_until
    && not (exists_row (takes_invoice new) d.subscriptions)

abbrev pub projected : SubscriptionProjection → Subscription → Subscription
projected p r = record r {
  state = p.state;
  billing_period_end = p.period_end;
  recovery_until = p.recovery_until;
  last_paid_invoice_id = some p.last_paid_invoice;
}

unfoldable pub update_subscription : Bytes → SubscriptionProjection → Db → Option (Db × Unit {0})
unfolding subscription_allowed
update_subscription license_id p d = elim (find_row (is_of_license license_id) d.subscriptions) [
  | none ↦ some (d, tt)
  | some r ↦
      if subscription_allowed (projected p r) d
      then some (
        record d {
          subscriptions = update_rows (is_of_license license_id) (projected p) d.subscriptions;
        },
        tt,
      )
      else none
]

abbrev pub new_subscription : Bytes → SubscriptionProjection → Subscription
new_subscription license_id p = record {
  license_id = license_id;
  state = p.state;
  billing_period_end = p.period_end;
  recovery_until = p.recovery_until;
  terminal_at = none;
  last_paid_invoice_id = some p.last_paid_invoice;
}

unfoldable pub insert_subscription : Subscription → Db → Option (Db × Unit {0})
unfolding subscription_allowed
insert_subscription new d =
    if exists_row (is_of_license new.license_id) d.subscriptions
    then none
    else if subscription_allowed new d
    then some (record d { subscriptions = new ∷ d.subscriptions }, tt)
    else none

-- COALESCE(last_paid_invoice_id, '').
abbrev pub projection_of : Subscription → SubscriptionProjection
projection_of r = record {
  state = r.state;
  period_end = r.billing_period_end;
  recovery_until = r.recovery_until;
  last_paid_invoice = get_or r.last_paid_invoice_id [];
}

unfoldable pub same_projection : SubscriptionProjection → SubscriptionProjection → Bool
same_projection a b =
    bytes_eq (billing_word a.state) (billing_word b.state)
    && a.period_end == b.period_end
    && a.recovery_until == b.recovery_until
    && bytes_eq a.last_paid_invoice b.last_paid_invoice

abbrev pub is_requested : CancellationReason → Bool
is_requested cancellation_requested = true
is_requested _ = false

abbrev pub is_canceled : SubscriptionStatus → Bool
is_canceled canceled = true
is_canceled _ = false

abbrev pub is_active : SubscriptionStatus → Bool
is_active SubscriptionStatus.active = true
is_active _ = false

abbrev pub has_ended : SubscriptionStatus → Bool
has_ended canceled = true
has_ended incomplete_expired = true
has_ended SubscriptionStatus.unpaid = true
has_ended _ = false

abbrev pub is_expired : SessionStatus → Bool
is_expired expired = true
is_expired _ = false

abbrev pub is_paid_cancellation : StripeSubscription → Bool
is_paid_cancellation s = is_canceled s.status && some_such s.cancellation_details is_requested

abbrev pub monthly_fulfilled_by : Bytes → Time → Bytes → Bytes → CheckoutOrder → CheckoutOrder
monthly_fulfilled_by license_id now session_id subscription_id o = record o {
  state = OrderState.fulfilled;
  license_id = some license_id;
  fulfilled_at = some now;
  stripe_checkout_session_id = some session_id;
  stripe_subscription_id = some subscription_id;
}

abbrev pub unpaid_with : OrderState → Bytes → Option Bytes → CheckoutOrder → CheckoutOrder
unpaid_with state session_id subscription_id o = record o {
  state = state;
  stripe_checkout_session_id = some session_id;
  stripe_subscription_id = subscription_id;
}

abbrev pub id_of : Option StripeSubscription → Option Bytes
id_of none = none
id_of (some s) = some s.id

-- The projection of a license that its first invoice pays for; its state is not read.
abbrev pub first_projection : Invoice → Time → SubscriptionProjection
first_projection initial paid_end = record {
  state = other_billing [];
  period_end = paid_end;
  recovery_until = paid_end + recovery_period;
  last_paid_invoice = initial.id;
}
