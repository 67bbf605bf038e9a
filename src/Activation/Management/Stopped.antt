-- ===== src/Activation/Management/Stopped.antt =====
-- internal/activation/management.go: the tables after a managed deactivation.
use glass_eqserver.Prelude.{
  ◌<◌, true, false, Bytes, List, Option, none, some, ◌≡◌, ◌≢◌, ◌⊎◌, inl, inr, refl, Bool-cases,
  bytes_eq, bytes_eq→eq, bytes_differ, find_row, find_row-holds, update_rows, RowByRow,
  update-RowByRow, arith,
}
use glass_eqserver.Store.Tables.{
  Time, AccessToken, Purpose, is_management, Activation, ActivationState, Db, activation_is_active,
}
use glass_eqserver.Store.Effect.{execute_nowait}
use glass_eqserver.Store.Rules.{
  Ensures, Ensures-bind, Ensures-pure, Ensures-write, after_call_nowait, after_or_respond,
  after_respond_if, after_query,
}
use glass_eqserver.Activation.Service.{Service, random_value_hash}
use glass_eqserver.Activation.Lifecycle.{stopped}
use glass_eqserver.Activation.Management.{
  ManagedDeactivationInput, management_token_hash, live_session, token_license,
  find_management_license_id, managed_target, update_managed, deactivate_managed,
}

-- The columns of an activation that the deactivation of one names.
abbrev pub IsTarget : Bytes → Bytes → Activation → Type 0
IsTarget id license_id a =
    (a.id ≡ id) × (a.license_id ≡ license_id) × (a.state ≡ ActivationState.active)

abbrev pub IsOther : Bytes → Bytes → Activation → Type 0
IsOther id license_id a =
    (a.id ≢ id) ⊎ (a.license_id ≢ license_id) ⊎ (a.state ≡ ActivationState.deactivated)

-- A row of `activations` before and after: the active row of the ID and of the license is
-- deactivated now and keeps its other columns; every other row is the same.
abbrev pub StoppedRow : Bytes → Bytes → Time → Activation → Activation → Type 0
StoppedRow id license_id now a b =
    (IsTarget id license_id a
      × (b ≡ record {
        id = a.id;
        license_id = a.license_id;
        installation_hash = a.installation_hash;
        token_hash = a.token_hash;
        state = ActivationState.deactivated;
        revision = a.revision;
        activated_at = a.activated_at;
        last_refreshed_at = a.last_refreshed_at;
        deactivated_at = some now;
      }))
    ⊎ (IsOther id license_id a × (b ≡ a))

-- The database after a deactivation that was asked with a live management session.
pub record StoppedIn (hash id : Bytes) (now : Time) (d d' : Db) : Type 0 where
  pub session : AccessToken
  pub found : find_row (live_session hash now) d.access_tokens ≡ some session
  pub hash_is : session.token_hash ≡ hash
  pub purpose_is : session.purpose ≡ Purpose.management
  pub live : now < session.expires_at
  pub rows : RowByRow (StoppedRow id session.license_id now) d.activations d'.activations
  pub others : d' ≡ record d { activations = d'.activations }

running :
    (state : ActivationState) → activation_is_active state ≡ true → state ≡ ActivationState.active
running ActivationState.active h = refl
running ActivationState.deactivated h = cc

not_running :
    (state : ActivationState)
    → activation_is_active state ≡ false
    → state ≡ ActivationState.deactivated
not_running ActivationState.active h = cc
not_running ActivationState.deactivated h = refl

target_lem :
    (id license_id : Bytes) (a : Activation)
    → managed_target id license_id a ≡ true
    → IsTarget id license_id a
target_lem id license_id a h = (
  bytes_eq→eq a.id id (ground arith),
  bytes_eq→eq a.license_id license_id (ground arith),
  running a.state (ground arith),
)

other_lem :
    (id license_id : Bytes) (a : Activation)
    → managed_target id license_id a ≡ false
    → IsOther id license_id a
other_lem id license_id a h = elim (Bool-cases (bytes_eq a.id id)) [
  | inr differs ↦ inl (bytes_differ a.id id differs)
  | inl same ↦ elim (Bool-cases (bytes_eq a.license_id license_id)) [
    | inr differs ↦ inr (inl (bytes_differ a.license_id license_id differs))
    | inl mine ↦ inr (inr (not_running a.state (ground arith)))
  ]
]

managed_rows :
    (id license_id : Bytes) (now : Time) (rows : List Activation)
    → RowByRow
        (StoppedRow id license_id now)
        rows
        (update_rows (managed_target id license_id) (stopped now) rows)
managed_rows id license_id now =
    update-RowByRow (StoppedRow id license_id now) (managed_target id license_id) (stopped now)
      (λ a h. inl (target_lem id license_id a h, refl))
      (λ a h. inr (other_lem id license_id a h, refl))

is_of_management : (purpose : Purpose) → is_management purpose ≡ true → purpose ≡ Purpose.management
is_of_management Purpose.management h = refl
is_of_management Purpose.recovery h = cc

hashed :
    (s : Service) (token hash : Bytes)
    → management_token_hash s token ≡ some hash
    → hash ≡ s.sha256 token
unfolding management_token_hash random_value_hash
hashed s token hash h = ground arith

-- The session whose license the token speaks for.
of_session :
    (o : Option AccessToken) (id : Bytes)
    → token_license o ≡ some id
    → (t : AccessToken) × (o ≡ some t) × (t.license_id ≡ id)
of_session none id e = ground arith
of_session (some t) id e = (t, refl, ground arith)

stopped_lem :
    (hash id : Bytes) (now : Time) (d : Db) (t : AccessToken)
    → find_row (live_session hash now) d.access_tokens ≡ some t
    → StoppedIn hash id now d (record d {
      activations = update_rows (managed_target id t.license_id) (stopped now) d.activations;
    })
stopped_lem hash id now d t row =
    let live = find_row-holds (live_session hash now) d.access_tokens t row in
    record {
      session = t;
      found = row;
      hash_is = bytes_eq→eq t.token_hash hash (ground arith);
      purpose_is = is_of_management t.purpose (ground arith);
      live = ground (arith, live);
      rows = managed_rows id t.license_id now d.activations;
      others = refl;
    }

-- A managed deactivation that succeeds was asked with a token whose SHA-256 is that of a management
-- session that has not expired; the active rows with the given activation ID that belong to the
-- session's license become deactivated, with now as the time, and keep their other columns; every
-- other row and table stay as they were.
pub deactivate_managed-stopped :
    (s : Service) (i : ManagedDeactivationInput) (now : Time) (d : Db)
    → Ensures (deactivate_managed s i now) d (λ _ d'.
      (hash : Bytes) × (management_token_hash s i.management_token ≡ some hash)
      × (hash ≡ s.sha256 i.management_token)
      × StoppedIn hash i.activation_id now d d')
unfolding deactivate_managed find_management_license_id execute_nowait update_managed
deactivate_managed-stopped s i now d = after_or_respond _ _ _ λ hash asked.
    after_respond_if _ _ _ λ _. after_query _ _ (
      after_or_respond _ _ _ λ id session.
        let (t, row, owned) = of_session _ id session in
        Ensures-bind _ _ (
          after_call_nowait _ _ (
            Ensures-write _ λ d' u e. Ensures-pure _ (
              hash,
              asked,
              hashed s i.management_token hash asked,
              written hash t row id owned d' (ground arith),
            ))))
  where
    written :
        (hash : Bytes) (t : AccessToken)
        → find_row (live_session hash now) d.access_tokens ≡ some t
        → (id : Bytes) → t.license_id ≡ id
        → (d' : Db)
        → d' ≡ record d {
          activations = update_rows (managed_target i.activation_id id) (stopped now) d.activations;
        }
        → StoppedIn hash i.activation_id now d d'
    written hash t row id owned d' e =
        rw (e, ← owned) (stopped_lem hash i.activation_id now d t row)
