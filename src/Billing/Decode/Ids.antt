-- ===== src/Billing/Decode/Ids.antt =====
-- internal/billing/stripe.go: validStripeID, and what an ID looks like.
use glass_eqserver.Prelude.{
  ◌≤◌, ◌<◌, ◌++◌, [], ◌∷◌, true, Bytes, length, bytes_eq→eq, bytes_eq_refl, ◌≡◌, refl, ap, arith,
}
use glass_eqserver.Platform.{Platform}
use glass_eqserver.Activation.Service.{has_prefix}
use glass_eqserver.Billing.Client.{valid_stripe_id}

-- A Stripe ID: the prefix, something behind it, and no space around it.
pub record IsStripeId (t : Platform) (value prefix : Bytes) : Type 0 where
  pub rest : Bytes
  pub value_is : value ≡ prefix ++ rest
  pub longer : 1 ≤ length rest
  pub trimmed : t.trim_space value ≡ value

prefix_rest :
    (prefix value : Bytes)
    → has_prefix prefix value ≡ true
    → length prefix < length value
    → (rest : Bytes) × (value ≡ prefix ++ rest) × (1 ≤ length rest)
prefix_rest [] value h l = (value, refl, l)
prefix_rest (p ∷ prefix) [] h l = cc
prefix_rest (p ∷ prefix) (c ∷ value) h l =
    let (rest, same, longer) = prefix_rest prefix value (ground arith) (omega arith) in
    (rest, rw same (ap (λ x. x ∷ prefix ++ rest) (ground arith)), longer)

starts_with : (prefix rest : Bytes) → has_prefix prefix (prefix ++ rest) ≡ true
starts_with [] rest = refl
starts_with (p ∷ prefix) rest = ground (arith, starts_with prefix rest)

longer_than : (prefix rest : Bytes) → 1 ≤ length rest → length prefix < length (prefix ++ rest)
longer_than [] rest h = h
longer_than (p ∷ prefix) rest h = omega (arith, longer_than prefix rest h)

pub valid-IsStripeId :
    (t : Platform) (value prefix : Bytes)
    → valid_stripe_id t value prefix ≡ true
    → IsStripeId t value prefix
unfolding valid_stripe_id
valid-IsStripeId t value prefix h =
    let (rest, same, longer) = prefix_rest prefix value (ground arith) (ground arith) in
    record {
      rest = rest;
      value_is = same;
      longer = longer;
      trimmed = bytes_eq→eq (t.trim_space value) value (ground arith);
    }

pub IsStripeId-valid :
    (t : Platform) (value prefix : Bytes)
    → IsStripeId t value prefix
    → valid_stripe_id t value prefix ≡ true
unfolding valid_stripe_id
IsStripeId-valid t value prefix h =
    let a = longer_than prefix h.rest h.longer in
    let b = starts_with prefix h.rest in
    let c = bytes_eq_refl (prefix ++ h.rest) in rw (h.trimmed, h.value_is) (ground (arith, a, b, c))
