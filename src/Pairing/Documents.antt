-- ===== src/Pairing/Documents.antt =====
-- Reading and writing the three JSON documents of src/pairing: `decode_pairing_document` of state.rs,
-- state_storage.rs, state_io.rs and the authorization state of local.rs.
pub mod Laws
pub mod Printed
pub mod Restored
use host_monitoring_client.Common.{
  ℕ, ◌≡◌, refl, Bool, ◌&&◌, ◌||◌, Option, none, some, ◌==◌, leb, if◌then◌else◌, all,
}
use host_monitoring_client.Common.Text.{Text, codes, text_eq, byte_len, is_ascii_alphanumeric}
use host_monitoring_client.Error.{
  Artifact, pairing_state, authorization_state, active_binding, unsupported, corrupt, rejected,
  nil_uuid, expected_active,
}
use host_monitoring_client.Exec.{Exec, Result, ok, err, pure, lift, ◌>>=◌, ◌>>◌}
use host_monitoring_client.StateFiles.{pairing, authorization, binding}
use host_monitoring_client.StateStore.{read, write, found}
use host_monitoring_client.Pairing.State.{
  StoredPairingState, active, Active, ActiveBinding, LocalAuthState, PairingStateVersion,
  persisted_state_format, generation_of,
}
use host_monitoring_client.Pairing.Platform.{Platform}
use host_monitoring_client.Pairing.Endpoints.{validate_durable_report_endpoint}

abbrev is_safe_version_byte : ℕ → Bool
is_safe_version_byte c = is_ascii_alphanumeric c || c == b'.' || c == b'-' || c == b'_'

-- An unknown version is echoed only if it is short and harmless.
unfoldable pub detected_version : Text → Text
detected_version v =
    if leb (byte_len v) 64 && all is_safe_version_byte v then v else codes "unrecognized"

abbrev pub or_corrupt : {T : Type 0} → Artifact → Option T → Result T
or_corrupt artifact none = err (corrupt artifact)
or_corrupt artifact (some v) = ok v

module _ {T : Type 0} where
  abbrev pub decode_version : (Text → Option T) → Artifact → Text → Option (Option Text) → Result T
  decode_version from artifact bytes none = err (corrupt artifact)
  decode_version from artifact bytes (some none) = err (corrupt artifact)
  decode_version from artifact bytes (some (some v)) =
      if text_eq v persisted_state_format
      then or_corrupt artifact (from bytes)
      else err (unsupported artifact (detected_version v))

  pub decode_pairing_document :
      (Text → Option (Option Text)) → (Text → Option T) → Artifact → Text → Result T
  decode_pairing_document header from artifact bytes =
      decode_version from artifact bytes (header bytes)

-- The version is a unit type: a document of another format was refused when it was decoded.
pub validate_state_version : PairingStateVersion → Result Unit
validate_state_version v = ok tt

pub validate_state_version-ok : (v : PairingStateVersion) → validate_state_version v ≡ ok tt
unfolding validate_state_version
validate_state_version-ok v = refl

abbrev pub refuse_nil : Result StoredPairingState → Result StoredPairingState
refuse_nil (ok s) = if generation_of s == 0 then err (corrupt pairing_state) else ok s
refuse_nil (err e) = err e

abbrev pub as_corrupt : ActiveBinding → Result Unit → Result ActiveBinding
as_corrupt b (ok u) = ok b
as_corrupt b (err e) = err (corrupt active_binding)

abbrev pub load_found : {T : Type 0} → (Text → Result T) → Option Text → Exec (Option T)
load_found decode none = pure none
load_found decode (some bytes) = lift (decode bytes) >>= λ v. pure (some v)

module _ (x : Platform) where
  -- The pure part of `load_state`.
  pub decode_state : Text → Result StoredPairingState
  decode_state bytes =
      refuse_nil (decode_pairing_document x.header_version x.state_from_json pairing_state bytes)

  pub load_state : Exec (Option StoredPairingState)
  load_state = found (read pairing) >>= load_found decode_state

  unfoldable pub validate_active_binding : ActiveBinding → Result Unit
  validate_active_binding b =
      if b.generation == 0 || b.request_id == 0 || b.instance_id == 0
      then err (rejected nil_uuid)
      else validate_durable_report_endpoint x b.report_endpoint

  abbrev validated : Result ActiveBinding → Result ActiveBinding
  validated (ok b) = as_corrupt b (validate_active_binding b)
  validated (err e) = err e

  -- The pure part of `load_active_binding`.
  pub decode_binding : Text → Result ActiveBinding
  decode_binding bytes =
      validated (decode_pairing_document x.header_version x.binding_from_json active_binding bytes)

  pub load_active_binding : Exec (Option ActiveBinding)
  load_active_binding = found (read binding) >>= load_found decode_binding

  pub decode_auth : Text → Result LocalAuthState
  decode_auth = decode_pairing_document x.header_version x.auth_from_json authorization_state

  -- `local_auth_state_unlocked`.
  pub load_auth_state : Exec (Option LocalAuthState)
  load_auth_state = found (read authorization) >>= load_found decode_auth

  pub persist_state : StoredPairingState → Exec Unit
  persist_state s = write pairing (x.state_to_json s)

  pub persist_active_binding : ActiveBinding → Exec Unit
  persist_active_binding b = do
    lift (validate_active_binding b)
    write binding (x.binding_to_json b)

  pub persist_auth_state : LocalAuthState → Exec Unit
  persist_auth_state a = write authorization (x.auth_to_json a)

unfoldable pub binding_of_active : Active → ActiveBinding
binding_of_active s = record {
  version = s.version;
  generation = s.generation;
  request_id = s.request_id;
  instance_id = s.instance_id;
  report_endpoint = s.report_endpoint;
}

unfoldable pub binding_from_active_state : StoredPairingState → Result ActiveBinding
binding_from_active_state (active s) = ok (binding_of_active s)
binding_from_active_state s = err (rejected expected_active)
