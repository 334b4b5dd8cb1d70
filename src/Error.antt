-- ===== src/Error.antt =====
-- The errors of the client as one type: `io::Error` by its kind, the typed errors that the source
-- takes out of `anyhow::Error` by `downcast`, and one constructor for each `bail!` or `ensure!`.
-- `context` adds a message and no behaviour, so it is left out.
use host_monitoring_client.Common.{ℕ, Option, List}
use host_monitoring_client.Common.Text.{Text}

pub data IoKind : Type 0 where
  not_found already_exists invalid_input invalid_data other : IoKind

-- The artifact that a stored document is.
pub data Artifact : Type 0 where
  pairing_state authorization_state active_binding : Artifact

pub data PairingHttpOperation : Type 0 where
  create activate poll : PairingHttpOperation

pub record PairingHttpError : Type 0 where
  pub operation : PairingHttpOperation
  pub status : ℕ
  pub code : Option Text
  pub received : Option ℕ
  pub supported : List ℕ
  pub request_id : Option ℕ

-- The refusals that carry only a message.
pub data Rejection : Type 0 where
  endpoint_unsafe endpoint_not_pairing endpoint_has_query endpoint_not_a_base : Rejection
  activation_url_invalid activation_url_credentials activation_url_not_https : Rejection
  activation_url_mismatch activation_code_invalid : Rejection
  nil_uuid invalid_host_identity identity_mismatch : Rejection
  expected_creating expected_pending expected_activating expected_active : Rejection
  different_server_pending different_server_creating : Rejection
  invalid_expiration invalid_poll_interval expiration_overflow : Rejection
  malformed_response unexpected_instance_id omitted_instance_id : Rejection
  request_disappeared no_longer_pending activation_instance_mismatch : Rejection
  rotation_not_published credential_missing not_authorized binding_unavailable : Rejection
  authorization_missing empty_token mode_mismatch repeated_changes : Rejection
  entropy_unavailable client_unavailable transport_failed serialization_limit : Rejection

pub data Error : Type 0 where
  io_error : IoKind → Error
  unsupported : Artifact → Text → Error
  corrupt : Artifact → Error
  superseded : Error
  http : PairingHttpError → Error
  local_credential_corrupt : Error
  rejected : Rejection → Error
