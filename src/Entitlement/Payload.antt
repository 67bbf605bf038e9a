-- ===== src/Entitlement/Payload.antt =====
-- internal/entitlement/issuer.go: the payloads of the two plans and the signed token.
use glass_eqserver.Prelude.{
  ℕ, Bool, false, Bytes, codes, [], ◌∷◌, ◌++◌, none, some, ltb, ◌==◌, length, if◌then◌else◌,
}
use glass_eqserver.Prelude.Int.{ℤ, pos}
use glass_eqserver.Platform.{Platform, Json, text, int64, bool, object, Members, end, member}
use glass_eqserver.Entitlement.Claims.{
  Claims, MonthlyClaims, BillingState, active, recovering, ending, lapsed, refunded, charged_back,
  other_billing, ClaimError,
}
use glass_eqserver.Entitlement.Validation.{
  Checked, valid, invalid, validate_common_claims, validate_monthly_claims,
}

pub record CommonPayload : Type 0 where
  pub issuer : Bytes
  pub audience : Bytes
  pub license_id : Bytes
  pub entitlement_id : Bytes
  pub issued_at : ℤ
  pub schema : ℤ
  pub plan : Bytes
  pub activation_id : Bytes
  pub installation_id : Bytes
  pub revision : ℤ
  pub release_scope : Bytes
  pub security_updates_after_expiry : Bool

pub record MonthlyPayload : Type 0 where
  pub common : CommonPayload
  pub open common use *
  pub billing_state : BillingState
  pub billing_period_end : ℤ
  pub recovery_until : ℤ
  pub refresh_after : ℤ
  pub expires_at : ℤ

-- Why no token was issued.
pub data IssueError : Type 0 where
  refused : ClaimError → IssueError
  not_marshalled too_long : IssueError
  signature_length : ℕ → IssueError

pub data Issued : Type 0 where
  issued : Bytes → Issued
  not_issued : IssueError → Issued

abbrev pub issuer_url : Bytes
issuer_url = codes "https://license.glasseq.app"

abbrev pub audience_id : Bytes
audience_id = codes "com.glasseq.app"

abbrev pub plan_perpetual_v1 : Bytes
plan_perpetual_v1 = codes "perpetual_v1"

abbrev pub plan_monthly : Bytes
plan_monthly = codes "monthly"

-- `maximumRawKMSMessageSize` and `ed25519.SignatureSize`.
abbrev pub maximum_message_size : ℕ
maximum_message_size = 4096

abbrev pub signature_size : ℕ
signature_size = 64

-- `ReleaseScope` and `SecurityUpdatesAfterExpiry` have Go's zero values until the plan sets them.
unfoldable pub new_common_payload : Platform → Claims → Bytes → Checked CommonPayload
new_common_payload p c plan = elim (validate_common_claims p c) [
  | invalid e ↦ invalid e
  | valid installation ↦ valid (record {
    issuer = issuer_url;
    audience = audience_id;
    license_id = c.license_id;
    entitlement_id = c.entitlement_id;
    issued_at = c.issued_at;
    schema = pos 1;
    plan = plan;
    activation_id = c.activation_id;
    installation_id = installation;
    revision = c.revision;
    release_scope = [];
    security_updates_after_expiry = false;
  })
]

abbrev pub billing_word : BillingState → Bytes
billing_word active = codes "active"
billing_word recovering = codes "recovering"
billing_word ending = codes "ending"
billing_word lapsed = codes "lapsed"
billing_word refunded = codes "refunded"
billing_word charged_back = codes "charged_back"
billing_word (other_billing word) = word

-- The members of a common payload, with those that follow it.
unfoldable pub common_members : CommonPayload → Members → Members
common_members c rest = member (codes "iss") (text c.issuer) (
    member (codes "aud") (text c.audience) (
      member (codes "sub") (text c.license_id) (
        member (codes "jti") (text c.entitlement_id) (
          member (codes "iat") (int64 c.issued_at) (
            member (codes "schema") (int64 c.schema) (
              member (codes "plan") (text c.plan) (
                member (codes "activation_id") (text c.activation_id) (
                  member (codes "installation_id") (text c.installation_id) (
                    member (codes "revision") (int64 c.revision) (
                      member (codes "release_scope") (text c.release_scope) (
                        member (codes "security_updates_after_expiry")
                          (bool c.security_updates_after_expiry) rest)))))))))))

unfoldable pub common_json : CommonPayload → Json
unfolding common_members
common_json c = object (common_members c end)

unfoldable pub monthly_json : MonthlyPayload → Json
unfolding common_members
monthly_json m = object (
    common_members m.common (
      member (codes "billing_state") (text (billing_word m.billing_state)) (
        member (codes "billing_period_end") (int64 m.billing_period_end) (
          member (codes "recovery_until") (int64 m.recovery_until) (
            member (codes "refresh_after") (int64 m.refresh_after)
              (member (codes "exp") (int64 m.expires_at) end))))))

-- The signing input is handed to KMS only when it is short enough; the signature must have the
-- length of an Ed25519 signature.
unfoldable pub sign_input : Platform → Bytes → Issued
sign_input p input =
    if ltb maximum_message_size (length input)
    then not_issued too_long
    else let signature = p.sign input in
      if length signature == signature_size
      then issued (input ++ (b'.' ∷ p.base64_url signature))
      else not_issued (signature_length (length signature))

unfoldable pub issue : Platform → Bytes → Json → Issued
unfolding sign_input
issue p encoded_header payload = elim (p.marshal payload) [
  | none ↦ not_issued not_marshalled
  | some encoded ↦ sign_input p (encoded_header ++ (b'.' ∷ p.base64_url encoded))
]

unfoldable pub issue_perpetual : Platform → Bytes → Claims → Issued
unfolding new_common_payload issue
issue_perpetual p header c = elim (new_common_payload p c plan_perpetual_v1) [
  | invalid e ↦ not_issued (refused e)
  | valid payload ↦ issue p header (common_json (record payload { release_scope = codes "v1" }))
]

abbrev pub monthly_payload : CommonPayload → MonthlyClaims → MonthlyPayload
monthly_payload payload c = record {
  common = record payload {
    release_scope = codes "current";
    security_updates_after_expiry = c.security_updates_after_expiry;
  };
  billing_state = c.billing_state;
  billing_period_end = c.billing_period_end;
  recovery_until = c.recovery_until;
  refresh_after = c.refresh_after;
  expires_at = c.expires_at;
}

unfoldable pub issue_monthly : Platform → Bytes → MonthlyClaims → Issued
unfolding new_common_payload issue
issue_monthly p header c = elim (new_common_payload p c.claims plan_monthly) [
  | invalid e ↦ not_issued (refused e)
  | valid payload ↦ elim (validate_monthly_claims c.issued_at c) [
    | some e ↦ not_issued (refused e)
    | none ↦ issue p header (monthly_json (monthly_payload payload c))
  ]
]
