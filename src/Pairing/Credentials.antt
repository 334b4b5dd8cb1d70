-- ===== src/Pairing/Credentials.antt =====
-- src/pairing/credentials.rs (`HostCredentials`) and the commit of src/pairing/commit_flow.rs. All of it
-- runs inside one transaction.
pub mod Recovery
pub mod Clean
pub mod Invalidation
use host_monitoring_client.Common.{
  ℕ, Bool, true, false, ◌&&◌, Option, none, some, ◌==◌, if◌then◌else◌,
}
use host_monitoring_client.Common.Text.{Text, codes, text_eq}
use host_monitoring_client.Error.{
  Error, active_binding, corrupt, superseded, rejected, expected_activating, binding_unavailable,
  authorization_missing, rotation_not_published,
}
use host_monitoring_client.Exec.{Exec, pure, throw, lift, utc_now, ◌>>=◌, ◌>>◌}
use host_monitoring_client.StateFiles.{identity, credential}
use host_monitoring_client.StateStore.{write, found}
use host_monitoring_client.Pairing.State.{
  Uuid, StoredPairingState, active, activating, Active, Activating, ActiveBinding, LocalAuthState,
  authorized, reauthorization_required, PairingProgress, active_progress, current_version,
  progress_from_terminal,
}
use host_monitoring_client.Pairing.Platform.{Platform}
use host_monitoring_client.Pairing.Documents.{
  load_state, load_active_binding, load_auth_state, persist_state, persist_active_binding,
  persist_auth_state, validate_active_binding, validate_state_version, binding_of_active,
}
use host_monitoring_client.Pairing.Identity.{
  validate_current_token, read_secret, ensure_matches, for_instance, from_state,
}

-- The revision of a credential: its generation and its request.
abbrev pub Revision : Type 0
Revision = Uuid × Uuid

pub record CredentialSnapshot : Type 0 where
  pub identity : Text
  pub revision : Revision
  pub secret : Text

pub data CredentialMutation : Type 0 where
  applied mutation_superseded : CredentialMutation

unfoldable pub binding_eq : ActiveBinding → ActiveBinding → Bool
binding_eq a b =
    a.generation == b.generation
    && a.request_id == b.request_id
    && a.instance_id == b.instance_id
    && text_eq a.report_endpoint b.report_endpoint

abbrev pub is_authorized : Option LocalAuthState → Bool
is_authorized none = false
is_authorized (some a) = elim a.status [ authorized ↦ true | reauthorization_required ↦ false ]

abbrev pub binding_is : Option ActiveBinding → ActiveBinding → Bool
binding_is none expected = false
binding_is (some b) expected = binding_eq b expected

abbrev pub or_throw : {A : Type 0} → Option A → Error → Exec A
or_throw none e = throw e
or_throw (some a) e = pure a

-- The binding that the journal `a` commits, and the state that it ends in.
unfoldable pub binding_of_journal : Activating → ActiveBinding
binding_of_journal a = record {
  version = current_version;
  generation = a.generation;
  request_id = a.request_id;
  instance_id = a.instance_id;
  report_endpoint = a.report_endpoint;
}

unfoldable pub active_of_journal : Activating → ℕ → Active
active_of_journal a now = record {
  version = current_version;
  generation = a.generation;
  request_id = a.request_id;
  activation_url = a.activation_url;
  instance_id = a.instance_id;
  report_endpoint = a.report_endpoint;
  completed_at = now;
}

unfoldable pub authorized_at : ℕ → LocalAuthState
authorized_at now = record {
  version = current_version;
  status = authorized;
  reason = codes "browser pairing completed";
  changed_at = now;
}

unfoldable pub reauthorization_at : Text → ℕ → LocalAuthState
reauthorization_at reason now = record {
  version = current_version;
  status = reauthorization_required;
  reason = reason;
  changed_at = now;
}

module _ (x : Platform) where
  -- `commit_activating_unlocked`: everything is checked first, and `Active` is written last.
  pub commit_activating : Activating → Exec PairingProgress
  commit_activating a = do
    lift (validate_state_version a.version)
    lift (validate_active_binding x (binding_of_journal a))
    lift (validate_current_token a.bearer_secret)
    write credential a.bearer_secret
    write identity (x.uuid_to_text a.instance_id)
    persist_active_binding x (binding_of_journal a)
    changed ← utc_now
    persist_auth_state x (authorized_at changed)
    completed ← utc_now
    persist_state x (active (active_of_journal a completed))
    pure (active_progress a.generation a.request_id a.instance_id a.report_endpoint)

  abbrev pub checked_binding :
      StoredPairingState → Option ActiveBinding → Exec (Option ActiveBinding)
  checked_binding (active s) b =
      if binding_is b (binding_of_active s) then pure b else throw (corrupt active_binding)
  checked_binding s b = pure b

  abbrev pub binding_for : Option StoredPairingState → Exec (Option ActiveBinding)
  binding_for none = pure none
  binding_for (some (activating a)) = pure none
  binding_for (some s) = load_active_binding x >>= checked_binding s

  -- `HostCredentials::binding`: none while a rotation owns the files.
  unfoldable pub current_binding : Exec (Option ActiveBinding)
  current_binding = load_state x >>= binding_for

  abbrev pub snapshot_of : ActiveBinding → Text → Option Text → Exec (Option CredentialSnapshot)
  snapshot_of b id none = pure none
  snapshot_of b id (some secret) =
      pure
        (some (record { identity = id; revision = (b.generation, b.request_id); secret = secret }))

  unfoldable pub load_authorized : Exec (Option CredentialSnapshot)
  load_authorized = do
    b ← current_binding
    b' ← or_throw b (rejected binding_unavailable)
    id ← from_state x
    expected ← lift (for_instance x (x.uuid_to_text b'.instance_id))
    lift (ensure_matches id expected)
    secret ← found read_secret
    snapshot_of b' id secret

  -- `HostCredentials::load`.
  unfoldable pub load_credential : Exec (Option CredentialSnapshot)
  load_credential = do
    auth ← load_auth_state x
    if is_authorized auth then load_authorized else pure none

  abbrev replace_current : Activating → Option StoredPairingState → Exec Unit
  replace_current r (some (activating current)) =
      if r.generation == current.generation && r.request_id == current.request_id
      then commit_activating current >> pure tt
      else throw superseded
  replace_current r s = throw superseded

  -- `HostCredentials::replace`: commits the journal on disk, never the caller's copy.
  pub replace : StoredPairingState → Exec Unit
  replace (activating r) = load_state x >>= replace_current r
  replace s = throw (rejected expected_activating)

  require_reauthorization : Text → Exec CredentialMutation
  require_reauthorization reason = do
    auth ← load_auth_state x
    or_throw auth (rejected authorization_missing)
    changed ← utc_now
    persist_auth_state x (reauthorization_at reason changed)
    pure applied

  abbrev invalidate_binding : Revision → Text → Option ActiveBinding → Exec CredentialMutation
  invalidate_binding expected reason none = pure mutation_superseded
  invalidate_binding expected reason (some b) =
      if b.generation == expected.0 && b.request_id == expected.1
      then require_reauthorization reason
      else pure mutation_superseded

  -- `HostCredentials::invalidate`.
  pub invalidate : Revision → Text → Exec CredentialMutation
  invalidate expected reason = current_binding >>= invalidate_binding expected reason

  -- `finish_activating_unlocked`.
  pub finish_activating : StoredPairingState → Exec PairingProgress
  finish_activating s = do
    replace s
    published ← load_state x
    current ← or_throw published (rejected rotation_not_published)
    pure (progress_from_terminal current)
