-- ===== src/Pairing/Platform.antt =====
-- What pairing calls and does not implement, as one record: the JSON codec (serde), the uuid, url and
-- sha2 crates, the random source, the HTTP client's construction, and the protocol's response types.
use host_monitoring_client.Common.{ℕ, ◌≡◌, Bool, Option, some, List}
use host_monitoring_client.Common.Text.{Text, trim}
use host_monitoring_client.Url.{Url}
use host_monitoring_client.Config.{ClientConfig}
use host_monitoring_client.Pairing.State.{
  Uuid, StoredPairingState, ActiveBinding, LocalAuthState, persisted_state_format,
}

-- xcsc's `ErrorEnvelope`, with the entries of `details` that the client looks up.
pub record ErrorEnvelope : Type 0 where
  pub code : Text
  pub message : Text
  pub request_id : Text
  pub retryable : Bool
  pub received : Option ℕ
  pub supported : List (Option ℕ)
  pub details_request_id : Option Text

pub record CreatePairingResponse : Type 0 where
  pub request_id : Uuid
  pub activation_url : Text
  pub expires_in : ℕ
  pub poll_interval : ℕ

pub data PairingStatus : Type 0 where
  status_waiting status_active status_denied status_expired : PairingStatus

pub record PairingStatusResponse : Type 0 where
  pub status : PairingStatus
  pub instance_id : Option Uuid

pub record Platform : Type 0 where
  -- The `version` field of a JSON document: no document, or a field that may be no string.
  pub header_version : Text → Option (Option Text)
  pub state_to_json : StoredPairingState → Text
  pub state_from_json : Text → Option StoredPairingState
  pub binding_to_json : ActiveBinding → Text
  pub binding_from_json : Text → Option ActiveBinding
  pub auth_to_json : LocalAuthState → Text
  pub auth_from_json : Text → Option LocalAuthState
  pub uuid_to_text : Uuid → Text
  pub uuid_from_text : Text → Option Uuid
  pub new_v4 : ℕ → Uuid
  pub random_bytes : ℕ → Option (List ℕ)
  pub sha256 : Text → List ℕ
  pub parse_url : Text → Option Url
  pub join_url : Text → Text → Option Url
  pub url_to_text : Url → Text
  pub push_segments : Url → List Text → Option Url
  pub set_path : Url → Text → Url
  pub client_report_path : Text
  pub client_pairing_requests_path : Text
  pub activation_path_prefix : Text
  pub header_accepts : Text → Bool
  pub client_builds : ClientConfig → Bool
  pub parse_envelope : Text → Option ErrorEnvelope
  pub parse_created : Text → Option CreatePairingResponse
  pub parse_status : Text → Option PairingStatusResponse
  pub parse_activated : Text → Option Uuid

-- What the JSON codec and the uuid crate promise: a printed value is read back, also after the store
-- trimmed it, and a document that the client prints carries the supported format.
pub record PlatformLaws (x : Platform) : Type 0 where
  pub state_version :
      (s : StoredPairingState)
      → x.header_version (trim (x.state_to_json s)) ≡ some (some persisted_state_format)
  pub state_round_trip :
      (s : StoredPairingState) → x.state_from_json (trim (x.state_to_json s)) ≡ some s
  pub binding_version :
      (b : ActiveBinding)
      → x.header_version (trim (x.binding_to_json b)) ≡ some (some persisted_state_format)
  pub binding_round_trip :
      (b : ActiveBinding) → x.binding_from_json (trim (x.binding_to_json b)) ≡ some b
  pub auth_version :
      (a : LocalAuthState)
      → x.header_version (trim (x.auth_to_json a)) ≡ some (some persisted_state_format)
  pub auth_round_trip : (a : LocalAuthState) → x.auth_from_json (trim (x.auth_to_json a)) ≡ some a
  pub uuid_trimmed : (u : Uuid) → trim (x.uuid_to_text u) ≡ x.uuid_to_text u
  pub uuid_round_trip : (u : Uuid) → x.uuid_from_text (x.uuid_to_text u) ≡ some u
