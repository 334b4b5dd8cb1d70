-- ===== src/Transport/Binding.antt =====
-- `Reporter::verify_remote_binding` of src/transport.rs: if the server still accepts the stored credential.
pub mod Trusted
use host_monitoring_client.Common.{
  ℕ, ◌≡◌, refl, arith, ◌++◌, Bool, true, ◌&&◌, ◌||◌, not, Option, none, some, List, [], ◌∷◌, inl,
  inr, ◌==◌, leb, if◌then◌else◌, Bool-cases, Option-cases, sym, ◌∙◌,
}
use host_monitoring_client.Common.Text.{Text, codes, text_eq, text_eq→eq}
use host_monitoring_client.Url.{Url}
use host_monitoring_client.Pairing.Platform.{Platform, ErrorEnvelope}
use host_monitoring_client.Pairing.Http.{HttpResponse, as_u16, all_u16, is_empty_list}
use host_monitoring_client.Pairing.Local.{Reporter}
use host_monitoring_client.Transport.{has_json, is_final, envelope_of}

pub data RemoteBindingFailure : Type 0 where
  invalid_endpoint local_credential_corrupt connection_failed timeout tls_validation_failed :
      RemoteBindingFailure
  response_too_large http_transport_failed server_upgrade_required : RemoteBindingFailure
  reverse_proxy_misconfigured rate_limited auth_response_untrusted : RemoteBindingFailure
  server_unavailable unexpected_redirect contract_mismatch : ℕ → RemoteBindingFailure

-- `RemoteBindingFailure::stable_code`.
unfoldable binding_code : RemoteBindingFailure → Text
binding_code invalid_endpoint = codes "pairing_invalid_endpoint"
binding_code local_credential_corrupt = codes "local_credential_corrupt"
binding_code connection_failed = codes "pairing_connection_failed"
binding_code timeout = codes "pairing_connection_timeout"
binding_code tls_validation_failed = codes "pairing_tls_untrusted"
binding_code response_too_large = codes "pairing_response_too_large"
binding_code http_transport_failed = codes "pairing_http_transport_failed"
binding_code server_upgrade_required = codes "pairing_server_upgrade_required"
binding_code reverse_proxy_misconfigured = codes "pairing_reverse_proxy_misconfigured"
binding_code rate_limited = codes "pairing_rate_limited"
binding_code (server_unavailable status) = codes "pairing_server_unavailable"
binding_code (unexpected_redirect status) = codes "pairing_unexpected_redirect"
binding_code (contract_mismatch status) = codes "pairing_server_contract_mismatch"
binding_code auth_response_untrusted = codes "pairing_auth_response_untrusted"

-- `Result<RemoteBindingStatus, RemoteBindingFailure>`.
pub data RemoteBinding : Type 0 where
  authorized : Text → RemoteBinding
  unauthorized : RemoteBinding
  protocol_unsupported : ℕ → List ℕ → RemoteBinding
  unverified : RemoteBindingFailure → RemoteBinding

-- `CredentialStatusResponse`, whose `status` has the one value `Authorized`.
pub record CredentialStatusResponse : Type 0 where
  pub protocol_version : ℕ
  pub host_id : Text
  pub instance_id : Text

pub data HttpTransportError : Type 0 where
  connection timed_out tls too_large transport : HttpTransportError

pub data Fetched : Type 0 where
  fetched : HttpResponse → Fetched
  unfetched : HttpTransportError → Fetched

unfoldable classify_http_error : HttpTransportError → RemoteBindingFailure
classify_http_error connection = connection_failed
classify_http_error timed_out = timeout
classify_http_error tls = tls_validation_failed
classify_http_error too_large = response_too_large
classify_http_error transport = http_transport_failed

-- The last match of `classify_credential_status_response`.
abbrev failure_of : ℕ → RemoteBindingFailure
failure_of status =
    if leb 300 status && leb status 399
    then unexpected_redirect status
    else if status == 401
    then auth_response_untrusted
    else if status == 404 || status == 405 || status == 426
    then server_upgrade_required
    else if status == 421
    then reverse_proxy_misconfigured
    else if status == 429
    then rate_limited
    else if leb 500 status && leb status 599
    then server_unavailable status
    else contract_mismatch status

-- The protocol versions of an envelope of the code.
abbrev unsupported_by : ℕ → Option ℕ → List ℕ → RemoteBinding
unsupported_by status none supported = unverified (failure_of status)
unsupported_by status (some received) supported =
    if is_empty_list supported
    then unverified (failure_of status)
    else protocol_unsupported received supported

abbrev unsupported : ℕ → Option ErrorEnvelope → RemoteBinding
unsupported status none = unverified (failure_of status)
unsupported status (some e) =
    if is_final (codes "unsupported_client_protocol") (some e)
    then unsupported_by status (as_u16 e.received) (all_u16 e.supported)
    else unverified (failure_of status)

abbrev refused_binding : ℕ → Option ErrorEnvelope → RemoteBinding
refused_binding status envelope =
    if status == 401 && is_final (codes "unauthorized") envelope
    then unauthorized
    else if status == 400
    then unsupported status envelope
    else unverified (failure_of status)

-- `HOST_PAIRING_PROTOCOL_VERSION`, `CLIENT_CREDENTIAL_STATUS_PATH` and the two JSON forms.
pub record BindingWire : Type 0 where
  pub protocol_version : ℕ
  pub status_path : Text
  pub parse_credential_status : Text → Option CredentialStatusResponse

module _ (x : Platform) (wire : BindingWire) where
  abbrev confirmed : Text → ℕ → Option CredentialStatusResponse → RemoteBinding
  confirmed expected_host_id status none = unverified (contract_mismatch status)
  confirmed expected_host_id status (some s) =
      if not (s.protocol_version == wire.protocol_version)
      then protocol_unsupported wire.protocol_version (s.protocol_version ∷ [])
      else if text_eq s.host_id s.instance_id && text_eq s.host_id expected_host_id
      then authorized s.host_id
      else unverified (contract_mismatch status)

  unfoldable pub classify_credential_status_response : Text → ℕ → Option Text → Text → RemoteBinding
  classify_credential_status_response expected_host_id status content_type body =
      if status == 200 && has_json content_type
      then confirmed expected_host_id status (wire.parse_credential_status body)
      else refused_binding status (envelope_of x.parse_envelope content_type body)

  abbrev answered_binding : Reporter → Fetched → RemoteBinding
  answered_binding reporter (unfetched e) = unverified (classify_http_error e)
  answered_binding reporter (fetched r) =
      classify_credential_status_response reporter.identity r.status r.content_type r.body

  -- The address that is asked.
  abbrev status_url : Url → Url
  status_url url = record (x.set_path url wire.status_path) { query = none; fragment = none }

  abbrev binding_at :
      Reporter → (Text → Bool) → (Text → Text → Fetched) → Option Url → RemoteBinding
  binding_at reporter builds get none = unverified invalid_endpoint
  binding_at reporter builds get (some url) =
      let address = x.url_to_text (status_url url) in
      if not (x.header_accepts (codes "Bearer " ++ reporter.token))
      then unverified local_credential_corrupt
      else if not (builds address)
      then unverified invalid_endpoint
      else answered_binding reporter (get address reporter.token)

  -- `get` sends the request with the token; `builds` says if reqwest can build it.
  unfoldable pub verify_remote_binding :
      Reporter → (Text → Bool) → (Text → Text → Fetched) → RemoteBinding
  unfolding classify_http_error
  verify_remote_binding reporter builds get =
      binding_at reporter builds get (x.parse_url reporter.endpoint)
