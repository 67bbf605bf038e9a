-- ===== src/Billing/Decode/Accepted.antt =====
-- internal/billing/event.go: the events that the webhook accepts.
use glass_eqserver.Prelude.{
  ◌+◌, ◌*◌, ◌≤◌, Bool, true, false, ◌&&◌, Bytes, codes, Option, none, some, length, bytes_eq→eq,
  bytes_eq_refl, ◌≡◌, ◌↔◌, refl, ap, subst, arith, if◌then◌else◌,
}
use glass_eqserver.Prelude.Int.{pos, ltb_ℤ}
use glass_eqserver.Platform.{Platform}
use glass_eqserver.Store.Tables.{Time}
use glass_eqserver.Activation.Time.{minute, unix}
use glass_eqserver.Billing.Objects.{some_such}
use glass_eqserver.Billing.Client.{same_bool, valid_stripe_id}
use glass_eqserver.Billing.Ledger.{BillingEvent}
use glass_eqserver.Billing.Monthly.Paid.{some_such-IsSome}
use glass_eqserver.Billing.Decode.{
  stripe_api_version, event_subject, envelope_valid, subject_valid, validate_event,
  decode_billing_event,
}
use glass_eqserver.Billing.Decode.Subjects.{IsAbout, subject-IsAbout, IsAbout-subject}
use glass_eqserver.Billing.Decode.Ids.{IsStripeId, valid-IsStripeId, IsStripeId-valid}

same_bool→eq : (a b : Bool) → same_bool a b ≡ true → a ≡ b
same_bool→eq true true h = refl
same_bool→eq false false h = refl
same_bool→eq true false h = cc
same_bool→eq false true h = cc

same_bool_refl : (a : Bool) → same_bool a a ≡ true
same_bool_refl true = refl
same_bool_refl false = refl

module _ (t : Platform) (live_mode : Bool) (now : Time) (e : BillingEvent) where
  -- What is asked of every event, whatever it is about.
  pub record IsEnvelope : Type 0 where
    pub id_valid : IsStripeId t e.id (codes "evt_")
    pub id_short : length e.id ≤ 255
    pub object_is : e.object ≡ codes "event"
    pub version_is : e.api_version ≡ codes "2026-07-29.preview"
    pub mode_is : e.livemode ≡ some live_mode
    pub created : ltb_ℤ (pos 0) e.created ≡ true
    pub recent : ltb_ℤ (unix (now + 5 * minute)) e.created ≡ false
    pub object_short : length e.object_id ≤ 255

  -- The type is one of the handled ones, and the object is of its kind.
  pub record IsSubject : Type 0 where
    pub prefix : Bytes
    pub handled : IsAbout e.event_type prefix e.object_kind
    pub object_valid : IsStripeId t e.object_id prefix

  envelope-IsEnvelope : envelope_valid t live_mode now e ≡ true → IsEnvelope
  unfolding envelope_valid
  envelope-IsEnvelope h =
      let mode = some_such-IsSome e.livemode (λ m. same_bool m live_mode) (ground arith) in
      record {
        id_valid = valid-IsStripeId t e.id (codes "evt_") (ground arith);
        id_short = ground arith;
        object_is = bytes_eq→eq e.object (codes "event") (ground arith);
        version_is = bytes_eq→eq e.api_version stripe_api_version (ground arith);
        mode_is = rw mode.is_value (ap some (same_bool→eq mode.value live_mode mode.holds));
        created = ground arith;
        recent = ground arith;
        object_short = ground arith;
      }

  IsEnvelope-valid : IsEnvelope → envelope_valid t live_mode now e ≡ true
  unfolding envelope_valid
  IsEnvelope-valid h =
      rw
        (
          IsStripeId-valid t e.id (codes "evt_") h.id_valid,
          h.object_is,
          h.version_is,
          h.mode_is,
          h.created,
          h.recent,
          bytes_eq_refl (codes "event"),
          bytes_eq_refl stripe_api_version,
          same_bool_refl live_mode,
        )
        (ground (arith, h.id_short, h.object_short))

  both :
      (prefix kind : Bytes)
      → subject_valid t e (prefix, kind) ≡ true
      → valid_stripe_id t e.object_id prefix ≡ true
  both prefix kind h = ground arith

  kinds : (prefix kind : Bytes) → subject_valid t e (prefix, kind) ≡ true → e.object_kind ≡ kind
  kinds prefix kind h = bytes_eq→eq e.object_kind kind (ground arith)

  subject-IsSubject : some_such (event_subject e.event_type) (subject_valid t e) ≡ true → IsSubject
  subject-IsSubject h =
      let found = some_such-IsSome (event_subject e.event_type) (subject_valid t e) h in
      let kind_is = kinds found.value.0 found.value.1 found.holds in
      record {
        prefix = found.value.0;
        handled =
            subject-IsAbout e.event_type found.value.0 e.object_kind (rw kind_is found.is_value);
        object_valid =
            valid-IsStripeId t e.object_id found.value.0
              (both found.value.0 found.value.1 found.holds);
      }

  IsSubject-valid : IsSubject → some_such (event_subject e.event_type) (subject_valid t e) ≡ true
  IsSubject-valid h =
      rw
        (
          IsAbout-subject e.event_type h.prefix e.object_kind h.handled,
          IsStripeId-valid t e.object_id h.prefix h.object_valid,
        )
        (bytes_eq_refl e.object_kind)

chosen :
    (b : Bool) (x e : BillingEvent)
    → (if b then some x else none) ≡ some e
    → (b ≡ true) × (some x ≡ some e) × (x ≡ e)
chosen true x e h = (refl, h, cc)
chosen false x e h = cc

module _ (t : Platform) (live_mode : Bool) (now : Time) where
  abbrev passes : BillingEvent → Bool
  passes x =
      envelope_valid t live_mode now x && some_such (event_subject x.event_type) (subject_valid t x)

  passed :
      (x : BillingEvent)
      → passes x ≡ true
      → IsEnvelope t live_mode now x × IsSubject t live_mode now x
  passed x h = (
    envelope-IsEnvelope t live_mode now x (ground arith),
    subject-IsSubject t live_mode now x (ground arith),
  )

  decoded :
      (e : BillingEvent) (o : Option BillingEvent)
      → (elim o [ none ↦ none | some x ↦ validate_event t live_mode now x ]) ≡ some e
      → (o ≡ some e) × IsEnvelope t live_mode now e × IsSubject t live_mode now e
  unfolding validate_event
  decoded e none h = cc
  decoded e (some x) h =
      let (valid, same, equal) = chosen (passes x) x e h in
      let (envelope, subject) =
        subst (λ y. IsEnvelope t live_mode now y × IsSubject t live_mode now y) equal
          (passed x valid) in
      (same, envelope, subject)

  accepted_fields :
      (unmarshal : Bytes → Option BillingEvent) (body : Bytes) (e : BillingEvent)
      → decode_billing_event t unmarshal body live_mode now ≡ some e
      → (length body ≤ 262144)
        × (unmarshal body ≡ some e)
        × IsEnvelope t live_mode now e
        × IsSubject t live_mode now e
  unfolding decode_billing_event
  accepted_fields unmarshal body e h =
      let (read, envelope, subject) = decoded e (unmarshal body) (ground arith) in
      (ground arith, read, envelope, subject)

-- The webhook accepts a body as an event exactly where the body has at most 256 KiB and unmarshals
-- to it; its ID is an event's, its object is "event", its version is 2026-07-29.preview, its mode is
-- the server's, and its creation time is positive and at most five minutes ahead; its type is one of
-- the fifteen of `IsAbout`, and its object has the kind and an ID of that type; and no ID is above
-- 255 bytes.
pub decode_billing_event_iff :
    (t : Platform) (unmarshal : Bytes → Option BillingEvent) (body : Bytes) (live_mode : Bool)
    (now : Time) (e : BillingEvent)
    → (decode_billing_event t unmarshal body live_mode now ≡ some e) ↔ (
        (length body ≤ 262144)
        × (unmarshal body ≡ some e)
        × IsEnvelope t live_mode now e
        × IsSubject t live_mode now e)
unfolding decode_billing_event validate_event
decode_billing_event_iff t unmarshal body live_mode now e = (
  λ h. accepted_fields t live_mode now unmarshal body e h,
  λ (short, read, envelope, subject).
      rw
        (
          read,
          IsEnvelope-valid t live_mode now e envelope,
          IsSubject-valid t live_mode now e subject,
        )
        (ground (arith, short)),
)
