-- ===== src/Activation/System/Recovery.antt =====
-- internal/activation/recovery_request.go, recovery.go, recovery_dispatch.go and
-- license_dispatch.go: their sections, and the limits.
use glass_eqserver.Prelude.{
  Bool, true, false, Bytes, List, [], ◌∷◌, Option, none, some, ◌≡◌, arith, update_rows,
}
use glass_eqserver.Store.Tables.{Time, License, RecoveryJob, RecoveryEmailRow, LicenseDelivery}
use glass_eqserver.Store.Effect.{transact, execute}
use glass_eqserver.Store.Keeps.{Keeps, Keeps-bind, Keeps-execute, Keeps-transact_all}
use glass_eqserver.Activation.Service.{Service}
use glass_eqserver.Activation.Idempotency.{IdempotencyRequest}
use glass_eqserver.Activation.Management.{MintedSession, insert_token}
use glass_eqserver.Activation.RecoveryRequest.{
  insert_job, enqueue_recovery_request, enqueue_unless, count_email, recovery_rate_limited,
  request_recovery_locked,
}
use glass_eqserver.Activation.RecoverySession.{exchange_token, exchange_locked}
use glass_eqserver.Activation.Dispatch.Emails.{claim_email, delete_email}
use glass_eqserver.Activation.Dispatch.Licenses.{
  ClaimedDelivery, claim_delivery, delete_delivery, key_has_id, without_delivery, clear_delivery,
  acknowledge_delivery,
}
use glass_eqserver.Activation.Dispatch.Requests.{
  claim_job, delete_job, insert_recovery_email, create_recovery_delivery, create_deliveries,
  prepare_job, prepare_locked,
}
use glass_eqserver.Activation.System.Keys.{update-OneActiveKey}
use glass_eqserver.Activation.System.Kept.{IsSound, execute-Apart, step_rules}
use glass_eqserver.Activation.System.Sections.{keys_changed, token-kept, mint-kept}

job-kept : (j : RecoveryJob) → Keeps IsSound (execute (insert_job j))
unfolding insert_job
job-kept j = execute-Apart _ (λ d d' a e. ground arith)

enqueue-kept :
    (b : Bool) (s : Service) (email : Bytes) (now : Time)
    → Keeps IsSound (enqueue_unless b s email now)
unfolding enqueue_unless enqueue_recovery_request
enqueue-kept true s email now = search step_rules
enqueue-kept false s email now = search (step_rules, job-kept) depth 12

email_count-kept :
    (s : Service) (b : Bool) (email : Bytes) (start : Time)
    → Keeps IsSound (count_email s b email start)
unfolding count_email
email_count-kept s true email start = search step_rules
email_count-kept s false email start = search step_rules

limited-kept :
    (s : Service) (email client : Bytes) (now : Time)
    → Keeps IsSound (recovery_rate_limited s email client now)
unfolding recovery_rate_limited
limited-kept s email client now = search (step_rules, email_count-kept)

pub request-kept :
    (s : Service) (r : IdempotencyRequest) (email client : Bytes) (now : Time)
    → Keeps IsSound (transact (request_recovery_locked s r email client now))
unfolding request_recovery_locked
request-kept s r email client now =
    Keeps-transact_all _ (search (step_rules, limited-kept, enqueue-kept) depth 40)

exchanged-kept :
    (hash : Bytes) (m : MintedSession) (now : Time)
    → Keeps IsSound (execute (exchange_token hash m now))
unfolding exchange_token insert_token
exchanged-kept hash m now = execute-Apart _ (λ d d' a e. ground arith)

pub exchange-kept :
    (s : Service) (r : IdempotencyRequest) (now : Time)
    → Keeps IsSound (transact (exchange_locked s r now))
unfolding exchange_locked
exchange-kept s r now =
    Keeps-transact_all _ (search (step_rules, mint-kept, exchanged-kept) depth 40)

pub claim_job-kept :
    (free : RecoveryJob → Bool) (now : Time) → Keeps IsSound (execute (claim_job free now))
unfolding claim_job
claim_job-kept free now = execute-Apart _ (λ d d' a e. ground arith)

row-kept : (e : RecoveryEmailRow) → Keeps IsSound (execute (insert_recovery_email e))
unfolding insert_recovery_email
row-kept e = execute-Apart _ (λ d d' a e'. ground arith)

create-kept :
    (s : Service) (id : Bytes) (now : Time) → Keeps IsSound (create_recovery_delivery s id now)
unfolding create_recovery_delivery
create-kept s id now = search (step_rules, token-kept, row-kept) depth 20

deliveries-kept :
    (s : Service) (ls : List License) (now : Time) → Keeps IsSound (create_deliveries s ls now)
unfolding create_deliveries
deliveries-kept s [] now = search step_rules
deliveries-kept s (l ∷ ls) now =
    Keeps-bind _ _ (create-kept s l.id now) (λ _. deliveries-kept s ls now)

delete_job-kept : (id : Bytes) → Keeps IsSound (execute (delete_job id))
unfolding delete_job
delete_job-kept id = execute-Apart _ (λ d d' a e. ground arith)

prepare_job-kept :
    (s : Service) (id : Bytes) (now : Time) (o : Option Bytes)
    → Keeps IsSound (prepare_job s id now o)
unfolding prepare_job
prepare_job-kept s id now none = search step_rules
prepare_job-kept s id now (some lookup) =
    search (step_rules, deliveries-kept, delete_job-kept) depth 20

pub prepare-kept :
    (s : Service) (id : Bytes) (now : Time) → Keeps IsSound (transact (prepare_locked s id now))
unfolding prepare_locked
prepare-kept s id now = Keeps-transact_all _ (search (step_rules, prepare_job-kept) depth 20)

pub claim_email-kept :
    (free : RecoveryEmailRow → Bool) (now : Time) → Keeps IsSound (execute (claim_email free now))
unfolding claim_email
claim_email-kept free now = execute-Apart _ (λ d d' a e. ground arith)

pub delete_email-kept : (id : Bytes) → Keeps IsSound (execute (delete_email id))
unfolding delete_email
delete_email-kept id = execute-Apart _ (λ d d' a e. ground arith)

pub claim_delivery-kept :
    (free : LicenseDelivery → Bool) (now : Time) → Keeps IsSound (execute (claim_delivery free now))
unfolding claim_delivery
claim_delivery-kept free now = execute-Apart _ (λ d d' a e. ground arith)

sent-kept : (id key_id : Bytes) → Keeps IsSound (execute (delete_delivery id key_id))
unfolding delete_delivery
sent-kept id key_id = execute-Apart _ (λ d d' a e. ground arith)

clear-kept : (id : Bytes) → Keeps IsSound (execute (clear_delivery id))
unfolding clear_delivery
clear-kept id = Keeps-execute _ λ d d' u h e.
    let rows : d'.license_keys ≡ update_rows (key_has_id id) without_delivery d.license_keys =
      ground arith in
    keys_changed d d' (ground arith)
      (rw rows
        (update-OneActiveKey (key_has_id id) without_delivery d.license_keys (λ l k c. c) h.keys))
      h

pub acknowledge-kept : (c : ClaimedDelivery) → Keeps IsSound (transact (acknowledge_delivery c))
unfolding acknowledge_delivery
acknowledge-kept c = Keeps-transact_all _ (search (step_rules, sent-kept, clear-kept) depth 20)
