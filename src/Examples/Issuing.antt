-- ===== src/Examples/Issuing.antt =====
-- The theorems on internal/entitlement and internal/billing at concrete inputs.
use glass_eqserver.Prelude.{
  ◌≤◌, Bytes, codes, none, some, true, ◌≡◌, ◌↔◌, refl, arith, length, bytes_eq,
}
use glass_eqserver.Prelude.Int.{pos}
use glass_eqserver.Entitlement.Claims.{BillingState, Claims, MonthlyClaims}
use glass_eqserver.Entitlement.KeyId.{validate_key_id}
use glass_eqserver.Entitlement.KeyId.Chars.{AllChars, validate_key_id_iff}
use glass_eqserver.Entitlement.Validation.{valid, validate_common_claims, validate_monthly_claims}
use glass_eqserver.Entitlement.Validation.Meaning.{
  IsCommon, IsMonthly, validate_common_claims_iff, validate_monthly_claims_iff,
}
use glass_eqserver.Billing.Objects.{past_due, StripeSubscription}
use glass_eqserver.Billing.Projection.{
  SubscriptionProjection, apply_payment, apply_status, settle_ending, reconcile_subscription,
  max_recovery_deadline,
}
use glass_eqserver.Billing.Projection.Deadlines.{
  Holds, Reconciled, reconcile_subscription-Reconciled,
}
use glass_eqserver.Billing.Projection.Repeat.{reconcile_subscription_idem}
use glass_eqserver.Examples.StripeObjects.{monthly_subscription}
use glass_eqserver.Examples.World.{plain_platform, repeated}

validate_key_id_iff_example : (validate_key_id (codes "key-1.a") ≡ true) ↔ (
    (1 ≤ length (codes "key-1.a")) × (length (codes "key-1.a") ≤ 128) × AllChars (codes "key-1.a"))
validate_key_id_iff_example = validate_key_id_iff (codes "key-1.a")

abbrev paid_claims : Claims
paid_claims = record {
  license_id = codes "lic_1";
  entitlement_id = codes "ent_1";
  issued_at = pos 100;
  activation_id = codes "act_1";
  installation_id = repeated 36 b'A';
  revision = pos 1;
}

validate_common_claims_iff_example :
    (validate_common_claims plain_platform paid_claims ≡ valid (repeated 36 b'A')) ↔ (
      (u : Bytes) × IsCommon plain_platform paid_claims u
      × (repeated 36 b'A' ≡ plain_platform.to_upper u))
validate_common_claims_iff_example =
    validate_common_claims_iff plain_platform paid_claims (repeated 36 b'A')

abbrev paid_monthly_claims : MonthlyClaims
paid_monthly_claims = record {
  claims = paid_claims;
  billing_state = BillingState.active;
  billing_period_end = pos 200;
  recovery_until = pos 300;
  refresh_after = pos 400;
  expires_at = pos 605100;
  security_updates_after_expiry = true;
}

validate_monthly_claims_iff_example :
    (validate_monthly_claims (pos 100) paid_monthly_claims ≡ none)
    ↔ IsMonthly (pos 100) paid_monthly_claims
validate_monthly_claims_iff_example = validate_monthly_claims_iff (pos 100) paid_monthly_claims

abbrev paid_projection : SubscriptionProjection
paid_projection = record {
  state = BillingState.active;
  period_end = 500;
  recovery_until = 900;
  last_paid_invoice = codes "in_1";
}

abbrev overdue : StripeSubscription
overdue = record monthly_subscription { status = past_due }

abbrev overdue_projection : SubscriptionProjection
overdue_projection = record {
  state = BillingState.recovering;
  period_end = 600;
  recovery_until = 1209600000600;
  last_paid_invoice = codes "in_2";
}

reconcile_subscription-Reconciled_example :
    Holds
      (Reconciled paid_projection (codes "in_2") 600 700)
      (reconcile_subscription paid_projection overdue (codes "in_2") 600 700)
reconcile_subscription-Reconciled_example =
    reconcile_subscription-Reconciled paid_projection overdue (codes "in_2") 600 700 (omega arith)

overdue_once :
    reconcile_subscription paid_projection overdue (codes "in_2") 600 700 ≡ some overdue_projection
unfolding reconcile_subscription apply_payment apply_status settle_ending max_recovery_deadline
    bytes_eq
overdue_once = refl

reconcile_subscription_idem_example :
    reconcile_subscription overdue_projection overdue (codes "in_2") 600 700
    ≡ some overdue_projection
reconcile_subscription_idem_example =
    reconcile_subscription_idem paid_projection overdue_projection overdue (codes "in_2") 600 700
      overdue_once
