-- ===== src/Activation/Reads.antt =====
-- internal/activation: the steps of the handlers that write nothing.
use glass_eqserver.Prelude.{ℕ, Bool, true, false, Bytes, Option, none, some}
use glass_eqserver.Platform.{Json}
use glass_eqserver.Entitlement.Claims.{Claims}
use glass_eqserver.Entitlement.Payload.{Issued, issued, not_issued}
use glass_eqserver.Store.Tables.{Time, IdempotencyRecord, Db}
use glass_eqserver.Store.Effect.{Response}
use glass_eqserver.Store.Keeps.{Keeps, keeps_rules}
use glass_eqserver.Activation.Service.{Service, random_value, seal, marshal_or_throw}
use glass_eqserver.Activation.LicenseKey.{generate_license_key}
use glass_eqserver.Activation.Terms.{
  IssuanceTerms, TermsResult, eligible, ineligible, broken, require_terms, hand_out,
  issue_entitlement, find_license_by_id,
}
use glass_eqserver.Activation.Idempotency.{
  IdempotencyRequest, Replay, absent, conflict, found, opened, open_response, replay_unless,
  read_replay, load_idempotency, respond_replay, respond_found,
}

module _ {P : Db → Type 0} where
  pub random_value-kept : (s : Service) (prefix : Bytes) (n : ℕ) → Keeps P (random_value s prefix n)
  unfolding random_value
  random_value-kept s prefix n = search keeps_rules

  pub seal-kept : (s : Service) (k t x : Bytes) → Keeps P (seal s k t x)
  unfolding seal
  seal-kept s k t x = search keeps_rules

  pub marshal-kept : (s : Service) (json : Json) → Keeps P (marshal_or_throw s json)
  unfolding marshal_or_throw
  marshal-kept s json = search keeps_rules

  hand_out-kept : (x : Issued) → Keeps P (hand_out x)
  unfolding hand_out
  hand_out-kept (not_issued e) = search keeps_rules
  hand_out-kept (issued token) = search keeps_rules

  pub issue-kept :
      (s : Service) (t : IssuanceTerms) (c : Claims) → Keeps P (issue_entitlement s t c)
  unfolding issue_entitlement
  issue-kept s t c = hand_out-kept _

  pub terms-kept : (t : TermsResult) (r : Response) → Keeps P (require_terms t r)
  unfolding require_terms
  terms-kept (eligible t) r = search keeps_rules
  terms-kept ineligible r = search keeps_rules
  terms-kept (broken e) r = search keeps_rules

  pub license_by_id-kept : (id : Bytes) → Keeps P (find_license_by_id id)
  unfolding find_license_by_id
  license_by_id-kept id = search keeps_rules

  opened-kept : (status : ℕ) (o : Option Bytes) → Keeps P (opened status o)
  unfolding opened
  opened-kept status none = search keeps_rules
  opened-kept status (some body) = search keeps_rules

  unless-kept :
      (b : Bool) (s : Service) (r : IdempotencyRequest) (row : IdempotencyRecord)
      → Keeps P (replay_unless b s r row)
  unfolding replay_unless open_response
  unless-kept true s r row = search keeps_rules
  unless-kept false s r row = search opened-kept

  read-kept :
      (s : Service) (r : IdempotencyRequest) (o : Option IdempotencyRecord)
      → Keeps P (read_replay s r o)
  unfolding read_replay
  read-kept s r none = search keeps_rules
  read-kept s r (some row) = search unless-kept

  pub load-kept :
      (s : Service) (r : IdempotencyRequest) (now : Time) → Keeps P (load_idempotency s r now)
  unfolding load_idempotency
  load-kept s r now = search (keeps_rules, read-kept)

  pub found-kept : (r : Replay) → Keeps P (respond_found r)
  unfolding respond_found
  found-kept absent = search keeps_rules
  found-kept conflict = search keeps_rules
  found-kept (found r) = search keeps_rules

  pub license_key-kept : (s : Service) → Keeps P (generate_license_key s)
  unfolding generate_license_key
  license_key-kept s = search keeps_rules

  pub replay-kept : (r : Replay) → Keeps P (respond_replay r)
  unfolding respond_replay
  replay-kept absent = search keeps_rules
  replay-kept conflict = search keeps_rules
  replay-kept (found r) = search keeps_rules

pub ruleset read_rules = (
  random_value-kept, seal-kept, marshal-kept, issue-kept, terms-kept, license_by_id-kept, load-kept,
  found-kept, replay-kept, license_key-kept,
)
