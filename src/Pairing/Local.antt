-- ===== src/Pairing/Local.antt =====
-- src/pairing/local.rs: the credential snapshots and the read-only views of the pairing state, with the
-- part of src/transport.rs that builds a reporter.
use host_monitoring_client.Common.{Bool, true, false, ◌&&◌, Option, none, some, ◌==◌, if◌then◌else◌}
use host_monitoring_client.Common.Text.{Text, trim}
use host_monitoring_client.Error.{
  active_binding, corrupt, rejected, client_unavailable, empty_token, credential_missing,
  not_authorized,
}
use host_monitoring_client.Exec.{Exec, pure, throw, lift, ◌>>=◌, ◌>>◌}
use host_monitoring_client.Config.{ClientConfig}
use host_monitoring_client.StateStore.{begin, is_empty}
use host_monitoring_client.Pairing.State.{
  Uuid, HostIdentity, StoredPairingState, activating, active, ActiveBinding,
}
use host_monitoring_client.Pairing.Platform.{Platform}
use host_monitoring_client.Pairing.Endpoints.{is_some}
use host_monitoring_client.Pairing.Documents.{
  load_state, load_active_binding, load_auth_state, binding_of_active,
}
use host_monitoring_client.Pairing.Identity.{for_instance, ensure_matches, load_host_identity}
use host_monitoring_client.Pairing.Credentials.{
  Revision, CredentialSnapshot, CredentialMutation, applied, mutation_superseded, binding_eq,
  is_authorized, or_throw, load_credential, invalidate, finish_activating,
}
use host_monitoring_client.Pairing.Compare.{load_current_active_binding, ensure_active_is_current}

-- The fields of `Reporter` that pairing decides.
pub record Reporter : Type 0 where
  pub identity : Text
  pub endpoint : Text
  pub token : Text
  pub credential_revision : Revision

pub record ReporterSnapshot : Type 0 where
  pub reporter : Reporter
  pub host : HostIdentity
  pub report_endpoint : Text

-- `apply_active_config` of src/pairing/commit.rs.
unfoldable pub apply_active_config : ClientConfig → Text → ClientConfig
apply_active_config config report_endpoint = record config {
  endpoint = report_endpoint;
  pairing_endpoint = none;
}

-- `ReporterSnapshot::apply`: the configuration, the host and the reporter together.
unfoldable apply : ReporterSnapshot → ClientConfig → ClientConfig × HostIdentity × Reporter
apply s config = (apply_active_config config s.report_endpoint, s.host, s.reporter)

module _ (x : Platform) (details : Text → HostIdentity) where
  unfoldable pub verified_reporter : ClientConfig → CredentialSnapshot → Exec Reporter
  verified_reporter config c = do
    same ← lift (for_instance x c.identity)
    lift (ensure_matches c.identity same)
    pure (record {
      identity = c.identity;
      endpoint = config.endpoint;
      token = c.secret;
      credential_revision = c.revision;
    })

  -- `Reporter::with_client_and_credential`.
  unfoldable pub build_reporter : ClientConfig → CredentialSnapshot → Exec Reporter
  build_reporter config c =
      if is_empty (trim c.secret) then throw (rejected empty_token) else verified_reporter config c

  abbrev pub with_credential : ClientConfig → Option CredentialSnapshot → Exec (Option Reporter)
  with_credential config none = pure none
  with_credential config (some c) =
      if x.client_builds config
      then (build_reporter config c >>= λ r. pure (some r))
      else throw (rejected client_unavailable)

  -- `Reporter::for_existing_credential`.
  unfoldable pub for_existing_credential : ClientConfig → Exec (Option Reporter)
  for_existing_credential config = load_credential x >>= with_credential config

  abbrev pub with_reporter :
      HostIdentity → ActiveBinding → Option Reporter → Option ReporterSnapshot
  with_reporter host b none = none
  with_reporter host b (some r) =
      some (record { reporter = r; host = host; report_endpoint = b.report_endpoint })

  -- `reporter_for_active_binding_unlocked`.
  unfoldable pub reporter_for_active_binding :
      ClientConfig → ActiveBinding → Exec (Option ReporterSnapshot)
  reporter_for_active_binding config b = do
    host ← load_host_identity x details
    mine ← lift (for_instance x host.id)
    bound ← lift (for_instance x (x.uuid_to_text b.instance_id))
    lift (ensure_matches mine bound)
    reporter ← for_existing_credential (apply_active_config config b.report_endpoint)
    pure (with_reporter host b reporter)

  abbrev pub unless_current :
      ClientConfig → Revision → ActiveBinding → Exec (Option ReporterSnapshot)
  unless_current config revision b =
      if b.generation == revision.0 && b.request_id == revision.1
      then pure none
      else reporter_for_active_binding config b

  abbrev pub agrees : StoredPairingState → ActiveBinding → Bool
  agrees (active s) b = binding_eq (binding_of_active s) b
  agrees s b = true

  abbrev pub refresh_bound :
      ClientConfig
      → Revision
      → StoredPairingState
      → Option ActiveBinding
      → Exec (Option ReporterSnapshot)
  refresh_bound config revision s none = throw (corrupt active_binding)
  refresh_bound config revision s (some b) =
      if agrees s b then unless_current config revision b else throw (corrupt active_binding)

  abbrev pub refresh_from :
      ClientConfig → Revision → Option StoredPairingState → Exec (Option ReporterSnapshot)
  refresh_from config revision none = pure none
  refresh_from config revision (some (activating a)) = pure none
  refresh_from config revision (some s) = load_active_binding x >>= refresh_bound config revision s

  unfoldable pub refresh_reporter_snapshot :
      ClientConfig → Revision → Exec (Option ReporterSnapshot)
  refresh_reporter_snapshot config revision = do
    begin
    auth ← load_auth_state x
    if is_authorized auth then (load_state x >>= refresh_from config revision) else pure none

  abbrev pub snapshot_from :
      ClientConfig → Option StoredPairingState → Exec (Option ReporterSnapshot)
  snapshot_from config (some (active s)) =
      load_current_active_binding x (binding_of_active s) >>= reporter_for_active_binding config
  snapshot_from config s = pure none

  -- `reporter_snapshot_for_current_active_state_unlocked`.
  unfoldable pub current_snapshot : ClientConfig → Exec (Option ReporterSnapshot)
  current_snapshot config = do
    auth ← load_auth_state x
    if is_authorized auth then (load_state x >>= snapshot_from config) else pure none

  unfoldable pub reporter_snapshot_for_current_active_state :
      ClientConfig → Exec (Option ReporterSnapshot)
  reporter_snapshot_for_current_active_state config = begin >> current_snapshot config

  abbrev pub previous_bound : ClientConfig → Option ActiveBinding → Exec (Option ReporterSnapshot)
  previous_bound config none = throw (corrupt active_binding)
  previous_bound config (some b) = reporter_for_active_binding config b

  abbrev pub previous_reporter :
      ClientConfig → Option StoredPairingState → Exec (Option ReporterSnapshot)
  previous_reporter config none = pure none
  previous_reporter config (some (active s)) = pure none
  previous_reporter config (some s) = load_active_binding x >>= previous_bound config

  abbrev pub existing_from :
      ClientConfig → Option StoredPairingState → Exec (Option ReporterSnapshot)
  existing_from config (some (activating a)) =
      finish_activating x (activating a) >> current_snapshot config
  existing_from config s = do
    auth ← load_auth_state x
    if is_authorized auth then previous_reporter config s else pure none

  unfoldable pub existing_reporter_for_run : ClientConfig → Exec (Option ReporterSnapshot)
  existing_reporter_for_run config = do begin; state ← load_state x; existing_from config state

  -- `activate_reporter_snapshot`.
  unfoldable activate_reporter_snapshot :
      ClientConfig → Uuid → Uuid → Uuid → Text → Exec (ClientConfig × HostIdentity × Reporter)
  activate_reporter_snapshot config generation request_id instance_id report_endpoint = do
    begin
    auth ← load_auth_state x
    (if is_authorized auth then pure tt else throw (rejected not_authorized))
    expected ← ensure_active_is_current x generation request_id instance_id report_endpoint
    b ← load_current_active_binding x expected
    found ← reporter_for_active_binding config b
    snapshot ← or_throw found (rejected credential_missing)
    pure (apply snapshot config)

module _ (x : Platform) where
  abbrev revision_from : Option StoredPairingState → Exec (Option Revision)
  revision_from (some (active s)) = load_current_active_binding x (binding_of_active s) >>= λ b.
      pure (some (b.generation, b.request_id))
  revision_from s = pure none

  unfoldable active_credential_revision : Exec (Option Revision)
  active_credential_revision = do
    begin
    auth ← load_auth_state x
    if is_authorized auth then (load_state x >>= revision_from) else pure none

  abbrev pub is_applied : CredentialMutation → Bool
  is_applied applied = true
  is_applied mutation_superseded = false

  unfoldable pub mark_reauth_required_if_current : Revision → Text → Exec Bool
  mark_reauth_required_if_current revision reason = do
    begin
    result ← invalidate x revision reason
    pure (is_applied result)

  -- `has_current_authorized_identity`: every phase counts.
  unfoldable has_current_authorized_identity : Exec Bool
  has_current_authorized_identity = do
    begin
    auth ← load_auth_state x
    if is_authorized auth then (load_state x >>= λ s. pure (is_some s)) else pure false
