-- ===== src/Pairing/Status.antt =====
-- The read-only views of src/pairing/local.rs: they take no lock, so other processes may write between
-- two reads.
use host_monitoring_client.Common.{ℕ, zero, suc, Bool, false, Option, none, some, if◌then◌else◌}
use host_monitoring_client.Error.{active_binding, corrupt, rejected, repeated_changes}
use host_monitoring_client.Exec.{Exec, Result, ok, err, pure, throw, ◌>>=◌, ◌>>◌, try_else}
use host_monitoring_client.StateStore.{open_reader, found}
use host_monitoring_client.Pairing.State.{
  StoredPairingState, active, Active, ActiveBinding, LocalAuthState, LocalPairingStatus,
  PairingProgress, progress_from_terminal,
}
use host_monitoring_client.Pairing.Platform.{Platform}
use host_monitoring_client.Pairing.Documents.{
  load_state, load_active_binding, load_auth_state, binding_of_active,
}
use host_monitoring_client.Pairing.Credentials.{binding_eq}

abbrev progress_of : Option StoredPairingState → Option PairingProgress
progress_of none = none
progress_of (some s) = some (progress_from_terminal s)

abbrev outside_active : Option StoredPairingState → LocalPairingStatus
outside_active s = record { progress = progress_of s; active_report_endpoint = none }

-- What the attempt ends in: a status, or another attempt.
abbrev stable : ActiveBinding → Option StoredPairingState → Bool
stable expected (some (active s)) = binding_eq (binding_of_active s) expected
stable expected s = false

-- The result of a step that is inspected later.
pub attempt : {A : Type 0} → Exec A → Exec (Result A)
attempt m = try_else m (λ a. pure (ok a)) (λ e. pure (err e))

module _ (x : Platform) where
  unfoldable local_progress : Exec (Option PairingProgress)
  local_progress = do
    opened ← found open_reader
    elim opened [ none ↦ pure none | some u ↦ load_state x >>= λ s. pure (progress_of s) ]

  abbrev bound_status : Active → Result (Option ActiveBinding) → Exec LocalPairingStatus
  bound_status s (err e) = throw e
  bound_status s (ok none) = throw (corrupt active_binding)
  bound_status s (ok (some b)) =
      if binding_eq b (binding_of_active s)
      then pure (record {
        progress = some (progress_from_terminal (active s));
        active_report_endpoint = some s.report_endpoint;
      })
      else throw (corrupt active_binding)

  -- One attempt of the loop; `environment` is what other processes do between two reads.
  unfoldable status_active : Exec Unit → Active → Exec LocalPairingStatus → Exec LocalPairingStatus
  status_active environment s again = do
    environment
    b ← attempt (load_active_binding x)
    environment
    current ← load_state x
    (if stable (binding_of_active s) current then bound_status s b else again)

  abbrev status_from :
      Exec Unit → Exec LocalPairingStatus → Option StoredPairingState → Exec LocalPairingStatus
  status_from environment again (some (active s)) = status_active environment s again
  status_from environment again s = pure (outside_active s)

  unfoldable status_attempts : ℕ → Exec Unit → Exec LocalPairingStatus
  status_attempts zero environment = throw (rejected repeated_changes)
  status_attempts (suc n) environment =
      let again = environment >> status_attempts n environment in
      load_state x >>= status_from environment again

  unfoldable local_status : Exec Unit → Exec LocalPairingStatus
  local_status environment = do
    opened ← found open_reader
    elim opened [ none ↦ pure (outside_active none) | some u ↦ status_attempts 3 environment ]

  abbrev auth_status : Option (Unit {0}) → Exec (Option LocalAuthState)
  auth_status none = pure none
  auth_status (some u) = load_auth_state x

  unfoldable local_auth_state : Exec (Option LocalAuthState)
  local_auth_state = found open_reader >>= auth_status
