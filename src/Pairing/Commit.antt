-- ===== src/Pairing/Commit.antt =====
-- src/pairing/commit_flow.rs: from an approved request to the active credential, and the recovery of an
-- interrupted commit.
pub mod Recovery
use host_monitoring_client.Common.{Bool, true, false, ◌&&◌, Option, none, some, ◌==◌, if◌then◌else◌}
use host_monitoring_client.Error.{superseded, rejected, expected_activating, expected_pending}
use host_monitoring_client.Exec.{Exec, Result, ok, err, pure, throw, ◌>>=◌, ◌>>◌}
use host_monitoring_client.StateStore.{begin}
use host_monitoring_client.Pairing.State.{
  Uuid, StoredPairingState, pending, activating, active, Pending, Activating, PairingSession,
  PairingProgress, active_progress, current_version,
}
use host_monitoring_client.Pairing.Platform.{Platform}
use host_monitoring_client.Pairing.Documents.{load_state, persist_state}
use host_monitoring_client.Pairing.Credentials.{finish_activating}
use host_monitoring_client.Pairing.Compare.{key_of_pending, ensure_pending_is_current}

unfoldable pub journal_of_pending : Pending → Uuid → Activating
journal_of_pending p instance_id = record {
  version = current_version;
  generation = p.generation;
  request_id = p.request_id;
  activation_url = p.activation_url;
  expires_at = p.expires_at;
  poll_interval = p.poll_interval;
  instance_id = instance_id;
  pairing_endpoint = p.pairing_endpoint;
  report_endpoint = p.report_endpoint;
  bearer_secret = p.bearer_secret;
}

unfoldable pub session_of_journal : Activating → PairingSession
session_of_journal a = record {
  generation = a.generation;
  request_id = a.request_id;
  activation_url = a.activation_url;
  expires_at = a.expires_at;
  poll_interval = a.poll_interval;
}

unfoldable pub session_from_activating : StoredPairingState → Result PairingSession
session_from_activating (activating a) = ok (session_of_journal a)
session_from_activating s = err (rejected expected_activating)

module _ (x : Platform) where
  -- The journal is durable before any long-lived credential is touched.
  unfoldable pub persist_active_credentials : StoredPairingState → Uuid → Exec PairingProgress
  persist_active_credentials (pending p) instance_id = do
    begin
    ensure_pending_is_current x (key_of_pending p)
    persist_state x (activating (journal_of_pending p instance_id))
    finish_activating x (activating (journal_of_pending p instance_id))
  persist_active_credentials s instance_id = throw (rejected expected_pending)

  abbrev pub recover_current : Activating → Option StoredPairingState → Exec PairingProgress
  recover_current e (some (activating a)) =
      if a.generation == e.generation && a.request_id == e.request_id
      then finish_activating x (activating a)
      else throw superseded
  recover_current e (some (active s)) =
      if s.generation == e.generation && s.request_id == e.request_id
      then pure (active_progress s.generation s.request_id s.instance_id s.report_endpoint)
      else throw superseded
  recover_current e s = throw superseded

  unfoldable pub recover_activating : StoredPairingState → Exec PairingProgress
  recover_activating (activating e) = do begin; current ← load_state x; recover_current e current
  recover_activating s = throw (rejected expected_activating)
