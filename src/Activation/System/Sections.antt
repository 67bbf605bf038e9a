-- ===== src/Activation/System/Sections.antt =====
-- internal/activation: the sections that write to `activations` or `access_tokens`, and the limits.
use glass_eqserver.Prelude.{
  ℕ, Bool, true, false, Bytes, some, ◌≡◌, refl, arith, update_rows, if◌then◌else◌,
}
use glass_eqserver.Store.Tables.{Time, Activation, AccessToken, Db, activation_is_active}
use glass_eqserver.Store.Effect.{M, Response, pure, transact, execute, execute_nowait}
use glass_eqserver.Store.Rules.{Ensures-weaken}
use glass_eqserver.Store.Keeps.{
  Keeps, Keeps-pure, Keeps-execute, Keeps-execute_nowait, Keeps-transact, Keeps-transact_all,
  keeps_rules,
}
use glass_eqserver.Activation.Service.{Service}
use glass_eqserver.Activation.Terms.{LicenseRecord, IssuanceTerms}
use glass_eqserver.Activation.RateLimit.{count_license_key, count_attempts}
use glass_eqserver.Activation.Activate.{PreparedInput, activate_locked, counts_for, has_id}
use glass_eqserver.Activation.Activate.Places.{update-IsLimited}
use glass_eqserver.Activation.Activate.Limit.{locked-IsLimited}
use glass_eqserver.Activation.Lifecycle.{
  refreshed, stopped, find_activation_license_id, find_activation_by_token, update_refreshed,
  refresh_activation, refresh_locked, update_deactivated, deactivate_if_active, deactivate_locked,
}
use glass_eqserver.Activation.Management.{
  MintedSession, mint_management_session, insert_token, insert_session, managed_target,
  update_managed,
}
use glass_eqserver.Activation.System.Keys.{OneActiveKey}
use glass_eqserver.Activation.System.Kept.{IsSound, Apart, execute-Apart, step_rules}

count_key-kept :
    (b : Bool) (hash : Bytes) (start : Time) → Keeps IsSound (count_license_key b hash start)
unfolding count_license_key
count_key-kept true hash start = search step_rules
count_key-kept false hash start = search step_rules

pub limits-kept :
    (s : Service) (hash client : Bytes) (start : Time)
    → Keeps IsSound (transact (count_attempts s hash client start))
unfolding count_attempts
limits-kept s hash client start =
    Keeps-transact_all _ (search (step_rules, count_key-kept) depth 12)

pub activate-kept :
    (s : Service) (p : PreparedInput) (now : Time)
    → Keeps IsSound (transact (activate_locked s p now))
activate-kept s p now = Keeps-transact _ λ d h.
    Ensures-weaken _ (locked-IsLimited s p now d h.places)
      (λ r d' l. record { places = l.0; keys = rw l.1 h.keys })

-- An UPDATE of `activations` by which no row becomes active.
activations_updated :
    (p : Activation → Bool) (f : Activation → Activation) (d d' : Db)
    → ((x : Activation) → (f x).id ≡ x.id)
    → ((l : Bytes) (x : Activation) → counts_for l (f x) ≡ true → counts_for l x ≡ true)
    → d'.activations ≡ update_rows p f d.activations
    → d'.license_keys ≡ d.license_keys
    → IsSound d
    → IsSound d'
activations_updated p f d d' ids falls a k h = record {
  places = rw a (update-IsLimited p f d.activations ids falls h.places);
  keys = rw k h.keys;
}

-- A statement that leaves `activations` alone.
pub keys_changed :
    (d d' : Db)
    → d'.activations ≡ d.activations
    → OneActiveKey d'.license_keys
    → IsSound d
    → IsSound d'
keys_changed d d' a k h = record { places = rw a h.places; keys = k }

refreshed-kept :
    (id : Bytes) (revision : ℕ) (now : Time)
    → Keeps IsSound (execute (update_refreshed id revision now))
unfolding update_refreshed
refreshed-kept id revision now = Keeps-execute _ λ d d' u h e.
    activations_updated (has_id id) (refreshed revision now) d d' (λ x. refl) (λ l x c. c)
      (ground arith) (ground arith) h

stopped-falls :
    (now : Time) (l : Bytes) (x : Activation)
    → counts_for l (stopped now x) ≡ true
    → counts_for l x ≡ true
stopped-falls now l x h = ground arith

deactivated-kept : (id : Bytes) (now : Time) → Keeps IsSound (execute (update_deactivated id now))
unfolding update_deactivated
deactivated-kept id now = Keeps-execute _ λ d d' u h e.
    activations_updated (has_id id) (stopped now) d d' (λ x. refl) (stopped-falls now)
      (ground arith) (ground arith) h

pub managed-kept :
    (id license_id : Bytes) (now : Time) (r : Response)
    → Keeps IsSound (execute_nowait r (update_managed id license_id now))
unfolding update_managed
managed-kept id license_id now r = Keeps-execute_nowait r _ λ d d' u h e.
    activations_updated (managed_target id license_id) (stopped now) d d' (λ x. refl)
      (stopped-falls now) (ground arith) (ground arith) h

by_token-kept : (hash : Bytes) → Keeps IsSound (find_activation_by_token hash)
unfolding find_activation_by_token
by_token-kept hash = search keeps_rules

license_id-kept : (hash : Bytes) → Keeps IsSound (find_activation_license_id hash)
unfolding find_activation_license_id
license_id-kept hash = search keeps_rules

refresh_activation-kept :
    (s : Service) (i : Bytes) (l : LicenseRecord) (t : IssuanceTerms) (a : Activation) (now : Time)
    → Keeps IsSound (refresh_activation s i l t a now)
unfolding refresh_activation
refresh_activation-kept s i l t a now = search (step_rules, refreshed-kept) depth 20

pub refresh-kept :
    (s : Service) (i installation hash : Bytes) (now : Time)
    → Keeps IsSound (transact (refresh_locked s i installation hash now))
unfolding refresh_locked
refresh-kept s i installation hash now =
    Keeps-transact_all _
      (search (step_rules, by_token-kept, license_id-kept, refresh_activation-kept) depth 40)

if_active-kept :
    (b : Bool) (m : M (Unit {0})) → Keeps IsSound m → Keeps IsSound (if b then m else pure tt)
if_active-kept true m h = h
if_active-kept false m h = Keeps-pure tt

stop-kept : (a : Activation) (now : Time) → Keeps IsSound (deactivate_if_active a now)
unfolding deactivate_if_active
stop-kept a now = if_active-kept (activation_is_active a.state) _ (deactivated-kept a.id now)

pub deactivate-kept :
    (hash : Bytes) (now : Time) → Keeps IsSound (transact (deactivate_locked hash now))
unfolding deactivate_locked
deactivate-kept hash now =
    Keeps-transact_all _ (search (step_rules, by_token-kept, license_id-kept, stop-kept) depth 40)

pub token-kept : (t : AccessToken) → Keeps IsSound (execute (insert_token t))
unfolding insert_token
token-kept t = execute-Apart _ (λ d d' a e. ground arith)

insert-Apart : (t : AccessToken) (d d' : Db) (n : ℕ) → insert_token t d ≡ some (d', n) → Apart d d'
unfolding insert_token
insert-Apart t d d' n e = ground arith

pub session-kept :
    (hash : Bytes) (m : MintedSession) (now : Time)
    → Keeps IsSound (execute (insert_session hash m now))
unfolding insert_session insert_token
session-kept hash m now = execute-Apart _ (λ d d' a e. ground arith)

pub mint-kept : (s : Service) (now : Time) → Keeps IsSound (mint_management_session s now)
unfolding mint_management_session
mint-kept s now = search step_rules depth 12
