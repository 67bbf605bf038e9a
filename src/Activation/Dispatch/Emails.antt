-- ===== src/Activation/Dispatch/Emails.antt =====
-- internal/activation/recovery_dispatch.go: the emails of the recovery outbox, and the worker that
-- runs both halves.
use glass_eqserver.Prelude.{
  ℕ, ◌+◌, Bool, true, false, ◌&&◌, ◌||◌, not, Bytes, List, [], ◌∷◌, ◌++◌, Option, none, some, ltb,
  leb, ◌==◌, count_rows, select_rows, delete_rows, update_rows, sort_by,
}
use glass_eqserver.Store.Tables.{Time, RecoveryJob, RecoveryEmailRow, Db}
use glass_eqserver.Store.Effect.{
  M, Exit, next, reply, fail, Failure, database, email, decryption, email_disappeared, pure,
  throw_if, or_throw, call, execute, ◌>>=◌, ◌>>◌,
}
use glass_eqserver.Activation.Service.{Service, open_sealed}
use glass_eqserver.Activation.Purchase.{recovery_email_additional_data}
use glass_eqserver.Activation.Dispatch.{
  retry_delay, minimum_delivery_lifetime, pending_before, first_row, license_active_in,
  email_ciphertext_of,
}
use glass_eqserver.Activation.Dispatch.Requests.{
  recovery_token_additional_data, email_has_id, prepare_recovery_request,
}

abbrev pub email_is_due : (RecoveryEmailRow → Bool) → Time → Db → RecoveryEmailRow → Bool
email_is_due free now d e =
    leb e.next_attempt_at now
    && ltb (now + minimum_delivery_lifetime) e.expires_at
    && license_active_in d e.license_id
    && free e

abbrev pub email_pending_before : RecoveryEmailRow → RecoveryEmailRow → Bool
email_pending_before a b =
    pending_before a.next_attempt_at a.created_at a.id b.next_attempt_at b.created_at b.id

-- What the claim returns of the outbox row and its license.
pub record ClaimedEmail : Type 0 where
  pub row : RecoveryEmailRow
  pub email_ciphertext : Bytes

abbrev pub delay_email : Time → RecoveryEmailRow → RecoveryEmailRow
delay_email now e = record e { next_attempt_at = now + retry_delay }

unfoldable pub due_email : (RecoveryEmailRow → Bool) → Time → Db → Option RecoveryEmailRow
due_email free now d =
    first_row
      (sort_by email_pending_before (select_rows (email_is_due free now d) d.recovery_emails))

unfoldable pub claim_email :
    (RecoveryEmailRow → Bool) → Time → Db → Option (Db × Option ClaimedEmail)
claim_email free now d = elim (due_email free now d) [
  | none ↦ some (d, none)
  | some e ↦ some (
    record d {
      recovery_emails = update_rows (email_has_id e.id) (delay_email now) d.recovery_emails;
    },
    some (record { row = e; email_ciphertext = email_ciphertext_of d e.license_id }),
  )
]

unfoldable pub delete_email : Bytes → Db → Option (Db × ℕ)
delete_email id d = some (
  record d { recovery_emails = delete_rows (email_has_id id) d.recovery_emails },
  count_rows (email_has_id id) d.recovery_emails,
)

-- The address and the token are decrypted, the email is sent, and only then the row is deleted.
unfoldable pub send_recovery_email : Service → Option ClaimedEmail → M Bool
send_recovery_email s none = pure false
send_recovery_email s (some c) = do
  address ←
      or_throw
        (open_sealed s s.database_key c.email_ciphertext
          (recovery_email_additional_data c.row.license_id))
        decryption
  token ←
      or_throw
        (open_sealed s s.database_key c.row.token_ciphertext
          (recovery_token_additional_data c.row.id c.row.license_id c.row.expires_at))
        decryption
  call email
  deleted ← execute (delete_email c.row.id)
  call database
  throw_if (not (deleted == 1)) email_disappeared
  pure true

unfoldable pub dispatch_email : Service → (RecoveryEmailRow → Bool) → Time → M Bool
dispatch_email s free now = do
  claimed ← execute (claim_email free now)
  send_recovery_email s claimed

-- `(bool, error)`, where the Boolean is false beside an error.
pub record Tried : Type 0 where
  pub done : Bool
  pub errors : List Failure

abbrev pub tried_exit : Exit Bool → Exit Tried
tried_exit (next b) = next (record { done = b; errors = [] })
tried_exit (reply r) = reply r
tried_exit (fail e) = next (record { done = false; errors = e ∷ [] })

unfoldable pub attempt : M Bool → M Tried
attempt m d v = let (x, d', v') = m d v in (tried_exit x, d', v')

-- Both halves run, whatever the first one meets; `errors.Join` keeps both errors.
unfoldable pub dispatch_recovery_email :
    Service → (RecoveryJob → Bool) → (RecoveryEmailRow → Bool) → Time → M Tried
dispatch_recovery_email s free_jobs free_emails now = do
  prepared ← attempt (prepare_recovery_request s free_jobs now)
  dispatched ← attempt (dispatch_email s free_emails now)
  pure (record {
    done = prepared.done || dispatched.done;
    errors = prepared.errors ++ dispatched.errors;
  })
