-- ===== src/Pairing/State.antt =====
-- src/pairing/state.rs: the persisted documents and what the pairing operations report.
use host_monitoring_client.Common.{ℕ, Option, none, some}
use host_monitoring_client.Common.Text.{Text, codes}

-- A UUID is its 128 bits as a number; the nil UUID is 0. A time is a number of seconds.
abbrev pub Uuid : Type 0
Uuid = ℕ

abbrev pub Time : Type 0
Time = ℕ

-- The unit structure that is serialised as the supported format.
pub data PairingStateVersion : Type 0 where
  current_version : PairingStateVersion

abbrev pub persisted_state_format : Text
persisted_state_format = codes "1.0.0"

-- xsos_protocol's host identity, with the fields that src/collectors/mod.rs fills in.
pub record HostIdentity : Type 0 where
  pub id : Text
  pub os : Text
  pub os_version : Option Text
  pub kernel_version : Option Text
  pub arch : Text
  pub client_version : Text

pub record Creating : Type 0 where
  pub version : PairingStateVersion
  pub generation : Uuid
  pub pairing_endpoint : Text
  pub report_endpoint : Text
  pub host : HostIdentity
  pub bearer_secret : Text
  pub polling_secret : Text

pub record Pending : Type 0 where
  pub version : PairingStateVersion
  pub generation : Uuid
  pub request_id : Uuid
  pub activation_url : Text
  pub expires_at : Time
  pub poll_interval : ℕ
  pub pairing_endpoint : Text
  pub report_endpoint : Text
  pub bearer_secret : Text
  pub polling_secret : Text

-- The commit journal.
pub record Activating : Type 0 where
  pub version : PairingStateVersion
  pub generation : Uuid
  pub request_id : Uuid
  pub activation_url : Text
  pub expires_at : Time
  pub poll_interval : ℕ
  pub instance_id : Uuid
  pub pairing_endpoint : Text
  pub report_endpoint : Text
  pub bearer_secret : Text

pub record Active : Type 0 where
  pub version : PairingStateVersion
  pub generation : Uuid
  pub request_id : Uuid
  pub activation_url : Text
  pub instance_id : Uuid
  pub report_endpoint : Text
  pub completed_at : Time

-- The fields of `Denied` and of `Expired`.
pub record Ended : Type 0 where
  pub version : PairingStateVersion
  pub generation : Uuid
  pub request_id : Uuid
  pub activation_url : Text
  pub report_endpoint : Text
  pub completed_at : Time

pub data StoredPairingState : Type 0 where
  creating : Creating → StoredPairingState
  pending : Pending → StoredPairingState
  activating : Activating → StoredPairingState
  active : Active → StoredPairingState
  denied : Ended → StoredPairingState
  expired : Ended → StoredPairingState

pub record ActiveBinding : Type 0 where
  pub version : PairingStateVersion
  pub generation : Uuid
  pub request_id : Uuid
  pub instance_id : Uuid
  pub report_endpoint : Text

pub record PairingSession : Type 0 where
  pub generation : Uuid
  pub request_id : Uuid
  pub activation_url : Text
  pub expires_at : Time
  pub poll_interval : ℕ

pub data PairingProgress : Type 0 where
  creating_progress : Uuid → Text → PairingProgress
  waiting : PairingSession → PairingProgress
  active_progress : Uuid → Uuid → Uuid → Text → PairingProgress
  denied_progress : Uuid → Uuid → Text → PairingProgress
  expired_progress : Uuid → Uuid → Text → PairingProgress

pub record LocalPairingStatus : Type 0 where
  pub progress : Option PairingProgress
  pub active_report_endpoint : Option Text

-- xcsc's authorization states that the client tells apart.
pub data CredentialAuthorization : Type 0 where
  authorized reauthorization_required : CredentialAuthorization

pub record LocalAuthState : Type 0 where
  pub version : PairingStateVersion
  pub status : CredentialAuthorization
  pub reason : Text
  pub changed_at : Time

unfoldable pub active_request_id : PairingProgress → Option Uuid
active_request_id (active_progress generation request_id instance_id report_endpoint) =
    some request_id
active_request_id p = none

unfoldable pub generation_of : StoredPairingState → Uuid
generation_of (creating s) = s.generation
generation_of (pending s) = s.generation
generation_of (activating s) = s.generation
generation_of (active s) = s.generation
generation_of (denied s) = s.generation
generation_of (expired s) = s.generation

-- `progress_from_terminal` of src/pairing/local.rs.
unfoldable pub progress_from_terminal : StoredPairingState → PairingProgress
progress_from_terminal (creating s) = creating_progress s.generation s.report_endpoint
progress_from_terminal (pending s) = waiting (record {
  generation = s.generation;
  request_id = s.request_id;
  activation_url = s.activation_url;
  expires_at = s.expires_at;
  poll_interval = s.poll_interval;
})
progress_from_terminal (activating s) = creating_progress s.generation s.report_endpoint
progress_from_terminal (active s) =
    active_progress s.generation s.request_id s.instance_id s.report_endpoint
progress_from_terminal (denied s) = denied_progress s.generation s.request_id s.activation_url
progress_from_terminal (expired s) = expired_progress s.generation s.request_id s.activation_url
