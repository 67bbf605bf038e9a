-- ===== src/Examples/StripeObjects.antt =====
-- A purchase at Stripe: a paid session of each plan, the subscription and its first invoice.
use glass_eqserver.Prelude.{Bytes, codes, [], ◌∷◌, none, some, true, false}
use glass_eqserver.Prelude.Int.{pos}
use glass_eqserver.Billing.Objects.{
  payment_mode, subscription_mode, PaymentStatus, complete, SubscriptionStatus, InvoiceStatus,
  subscription_create, Price, CheckoutSession, StripeSubscription, Invoice,
}

abbrev pub sold_price : Bytes → Bytes → Price
sold_price price product = record {
  id = price;
  product = some (record { id = product; object = codes "product"; livemode = false });
}

abbrev pub paid_session : CheckoutSession
paid_session = record {
  id = codes "cs_1";
  object = codes "checkout.session";
  livemode = false;
  mode = payment_mode;
  payment_status = PaymentStatus.paid;
  status = complete;
  payment_link = some (codes "plink_1");
  managed_payments = some true;
  line_items = some (record {
    has_more = false;
    data_items =
        some (record {
          quantity = pos 1;
          price = some (sold_price (codes "price_1") (codes "prod_1"));
        })
        ∷ [];
  });
  consent = some true;
  customer_details = some (codes "a@example.com");
  customer = some (codes "cus_1");
  payment_intent = some (record {
    id = codes "pi_1";
    object = codes "payment_intent";
    livemode = false;
    succeeded = true;
    latest_charge = some (record { id = codes "ch_1"; paid = true; refunded = false });
    customer = some (codes "cus_1");
  });
  subscription = none;
  invoice = none;
}

abbrev pub monthly_session : CheckoutSession
monthly_session = record paid_session {
  id = codes "cs_2";
  mode = subscription_mode;
  payment_link = some (codes "plink_2");
  line_items = some (record {
    has_more = false;
    data_items =
        some (record {
          quantity = pos 1;
          price = some (sold_price (codes "price_2") (codes "prod_2"));
        })
        ∷ [];
  });
  payment_intent = none;
  subscription = some (codes "sub_1");
  invoice = some (codes "in_1");
}

abbrev pub monthly_subscription : StripeSubscription
monthly_subscription = record {
  id = codes "sub_1";
  object = codes "subscription";
  livemode = false;
  status = SubscriptionStatus.active;
  customer = some (codes "cus_1");
  items = some (record {
    has_more = false;
    data_items =
        some (record {
          id = codes "si_1";
          subscription = codes "sub_1";
          quantity = pos 1;
          price = some (sold_price (codes "price_2") (codes "prod_2"));
        })
        ∷ [];
  });
  pause_collection = false;
  latest_invoice = some (codes "in_1");
  cancel_at_period_end = false;
  cancellation_details = none;
}

abbrev pub first_invoice : Invoice
first_invoice = record {
  id = codes "in_1";
  object = codes "invoice";
  livemode = false;
  parent =
      some (record { is_subscription = true; subscription_details = some (some (codes "sub_1")) });
  customer = some (codes "cus_1");
  billing_reason = subscription_create;
  lines = some (record {
    has_more = false;
    data_items =
        some (record {
          quantity = pos 1;
          parent = some (record {
            is_subscription_item = true;
            details = some (record {
              proration = false;
              subscription = codes "sub_1";
              subscription_item = codes "si_1";
            });
          });
          pricing = some (record {
            is_price_details = true;
            details = some (record { price = some (codes "price_2"); product = codes "prod_2" });
          });
          period = some (record { start = pos 1768000000; finish = pos 1770600000 });
        })
        ∷ [];
  });
  status = InvoiceStatus.paid;
  amount_paid = pos 500;
  currency = codes "eur";
}
