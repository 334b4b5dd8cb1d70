-- ===== src/Pairing/Compare.antt =====
-- The compare-and-swap operations of src/pairing/state_io.rs.
pub mod Laws
use host_monitoring_client.Common.{Bool, true, false, ◌&&◌, Option, none, some, ◌==◌, if◌then◌else◌}
use host_monitoring_client.Common.Text.{Text, text_eq}
use host_monitoring_client.Error.{active_binding, corrupt, superseded}
use host_monitoring_client.Exec.{Exec, pure, throw, ◌>>=◌, ◌>>◌}
use host_monitoring_client.StateStore.{begin}
use host_monitoring_client.Pairing.State.{
  Uuid, StoredPairingState, creating, pending, active, activating, Creating, Pending, Active,
  ActiveBinding,
}
use host_monitoring_client.Pairing.Platform.{Platform}
use host_monitoring_client.Pairing.Documents.{
  load_state, load_active_binding, persist_state, binding_of_active,
}
use host_monitoring_client.Pairing.Credentials.{binding_eq}

-- What identifies a request in flight; one that is being created has no request id yet.
pub record RequestKey : Type 0 where
  pub generation : Uuid
  pub request_id : Uuid
  pub pairing_endpoint : Text
  pub report_endpoint : Text
  pub polling_secret : Text

unfoldable pub key_of_pending : Pending → RequestKey
key_of_pending p = record {
  generation = p.generation;
  request_id = p.request_id;
  pairing_endpoint = p.pairing_endpoint;
  report_endpoint = p.report_endpoint;
  polling_secret = p.polling_secret;
}

abbrev pub is_creating : Creating → Option StoredPairingState → Bool
is_creating c (some (creating s)) =
    s.generation == c.generation
    && text_eq s.pairing_endpoint c.pairing_endpoint
    && text_eq s.report_endpoint c.report_endpoint
    && text_eq s.polling_secret c.polling_secret
is_creating c s = false

abbrev pub is_pending : RequestKey → Option StoredPairingState → Bool
is_pending k (some (pending s)) =
    s.generation == k.generation
    && s.request_id == k.request_id
    && text_eq s.pairing_endpoint k.pairing_endpoint
    && text_eq s.report_endpoint k.report_endpoint
    && text_eq s.polling_secret k.polling_secret
is_pending k s = false

module _ (x : Platform) where
  unfoldable pub compare_and_persist_creating : Creating → StoredPairingState → Exec Unit
  compare_and_persist_creating c next = do
    begin
    current ← load_state x
    if is_creating c current then persist_state x next else throw superseded

  pub ensure_pending_is_current : RequestKey → Exec Unit
  ensure_pending_is_current k = do
    current ← load_state x
    if is_pending k current then pure tt else throw superseded

  unfoldable pub compare_and_persist_pending : RequestKey → StoredPairingState → Exec Unit
  compare_and_persist_pending k next = do begin; ensure_pending_is_current k; persist_state x next

  abbrev pub current_is : ActiveBinding → Option ActiveBinding → Exec ActiveBinding
  current_is expected (some b) =
      if binding_eq b expected then pure b else throw (corrupt active_binding)
  current_is expected none = throw (corrupt active_binding)

  -- `load_current_active_binding_unlocked`.
  pub load_current_active_binding : ActiveBinding → Exec ActiveBinding
  load_current_active_binding expected = load_active_binding x >>= current_is expected

  abbrev active_if_current :
      Uuid → Uuid → Uuid → Text → Option StoredPairingState → Exec ActiveBinding
  active_if_current generation request_id instance_id report_endpoint (some (active s)) =
      if s.generation == generation
        && s.request_id == request_id
        && s.instance_id == instance_id
        && text_eq s.report_endpoint report_endpoint
      then pure (binding_of_active s)
      else throw superseded
  active_if_current generation request_id instance_id report_endpoint s = throw superseded

  -- `ensure_active_is_current` of src/pairing/local.rs.
  unfoldable pub ensure_active_is_current : Uuid → Uuid → Uuid → Text → Exec ActiveBinding
  ensure_active_is_current generation request_id instance_id report_endpoint =
      load_state x >>= active_if_current generation request_id instance_id report_endpoint
