-- ===== src/Pairing/Http.antt =====
-- src/pairing/client.rs and the HTTP errors of src/pairing/mod.rs: the requests that pairing sends, the
-- secrets in them, and how a response is accepted or refused.
pub mod Secrets
pub mod Refusals
use host_monitoring_client.Common.{
  ℕ, ◌+◌, ◌-◌, ◌/◌, ◌%◌, Bool, true, false, ◌&&◌, ◌||◌, not, Option, none, some, List, [], ◌∷◌,
  ◌==◌, leb, if◌then◌else◌,
}
use host_monitoring_client.Common.Text.{
  Text, codes, text_eq, trim, before, to_ascii_lowercase, strip_prefix, strip_suffix,
}
use host_monitoring_client.Error.{
  Error, http, rejected, entropy_unavailable, malformed_response, PairingHttpError,
  PairingHttpOperation, create, activate, poll,
}
use host_monitoring_client.Exec.{Exec, Result, ok, err, pure, throw, draw, ◌>>=◌}
use host_monitoring_client.Pairing.State.{Uuid, HostIdentity}
use host_monitoring_client.Pairing.Platform.{Platform, ErrorEnvelope}
use host_monitoring_client.Pairing.Endpoints.{is_some}

pub record HttpResponse : Type 0 where
  pub status : ℕ
  pub content_type : Option Text
  pub body : Text

-- `ClientPairingMode`.
pub data PairMode : Type 0 where
  fresh recover_identity : PairMode

pub data Request : Type 0 where
  create_request : Text → PairMode → HostIdentity → Text → Text → Request
  activate_request : Text → Uuid → Text → Request
  poll_request : Text → Text → Request

-- The network: it answers a request or fails, and while the client waits, other processes may change
-- the state directory, since no lock is held.
abbrev pub Net : Type 0
Net = Request → Exec HttpResponse

unfoldable pub hex_digit : ℕ → ℕ
hex_digit n = if leb n 9 then b'0' + n else b'a' + (n - 10)

unfoldable pub hex : List ℕ → Text
unfolding hex_digit
hex [] = []
hex (byte ∷ bytes) = hex_digit (byte / 16) ∷ hex_digit (byte % 16) ∷ hex bytes

abbrev pub or_no_entropy : Option (List ℕ) → Exec Text
or_no_entropy none = throw (rejected entropy_unavailable)
or_no_entropy (some bytes) = pure (hex bytes)

unfoldable pub random_secret : Platform → Exec Text
random_secret x = draw >>= λ n. or_no_entropy (x.random_bytes n)

unfoldable pub sha256_hex : Platform → Text → Text
sha256_hex x secret = hex (x.sha256 secret)

unfoldable pub content_type_for_diagnostics : Text → Text
content_type_for_diagnostics content_type =
    let media_type = to_ascii_lowercase (trim (before b';' content_type)) in
    if text_eq media_type (codes "application/json")
      || text_eq media_type (codes "text/html")
      || text_eq media_type (codes "text/plain")
      || text_eq media_type (codes "application/octet-stream")
      || text_eq media_type (codes "<missing>")
    then media_type
    else if is_some (strip_prefix (codes "application/") media_type)
        && is_some (strip_suffix (codes "+json") media_type)
    then codes "application/*+json"
    else codes "<unexpected>"

abbrev raw_content_type : Option Text → Text
raw_content_type none = codes "<missing>"
raw_content_type (some t) = t

unfoldable pub response_content_type : HttpResponse → Text
response_content_type r = content_type_for_diagnostics (raw_content_type r.content_type)

abbrev is_json : Text → Bool
is_json content_type =
    text_eq (content_type_for_diagnostics content_type) (codes "application/json")

-- `u16::try_from(...).ok()`.
abbrev pub as_u16 : Option ℕ → Option ℕ
as_u16 none = none
as_u16 (some n) = if leb n 65535 then some n else none

abbrev pub all_u16 : List (Option ℕ) → List ℕ
all_u16 [] = []
all_u16 (n ∷ r) = elim (as_u16 n) [ none ↦ all_u16 r | some k ↦ k ∷ all_u16 r ]

abbrev is_protocol_error : ℕ → ErrorEnvelope → Bool
is_protocol_error status e =
    status == 400 && text_eq e.code (codes "unsupported_client_protocol") && not e.retryable

abbrev is_transaction_error : ErrorEnvelope → Bool
is_transaction_error e =
    not e.retryable
    && (text_eq e.code (codes "pairing_transaction_not_found")
        || text_eq e.code (codes "pairing_transaction_expired"))

abbrev keep : Bool → Option ErrorEnvelope → Option ErrorEnvelope
keep b e = if b then e else none

abbrev parsed_uuid : Platform → Option Text → Option Uuid
parsed_uuid x none = none
parsed_uuid x (some t) = x.uuid_from_text t

abbrev received_of : ℕ → Option ErrorEnvelope → Option ℕ
received_of status none = none
received_of status (some e) = if is_protocol_error status e then as_u16 e.received else none

abbrev supported_of : ℕ → Option ErrorEnvelope → List ℕ
supported_of status none = []
supported_of status (some e) = if is_protocol_error status e then all_u16 e.supported else []

abbrev request_of : Platform → Option ErrorEnvelope → Option Uuid
request_of x none = none
request_of x (some e) = if is_transaction_error e then parsed_uuid x e.details_request_id else none

abbrev pub is_empty_list : List ℕ → Bool
is_empty_list [] = true
is_empty_list (n ∷ r) = false

-- A code of the server is trusted only with the status and the details that belong to it.
unfoldable pub trusted_code :
    ℕ → Option ErrorEnvelope → Option ℕ → List ℕ → Option Uuid → Option Text
trusted_code status none received supported request_id = none
trusted_code status (some e) received supported request_id =
    if text_eq e.code (codes "unsupported_client_protocol")
    then if is_some received && not (is_empty_list supported) then some e.code else none
    else if text_eq e.code (codes "pairing_transaction_not_found")
    then if status == 404 && is_some request_id && not e.retryable then some e.code else none
    else if text_eq e.code (codes "pairing_transaction_expired")
    then if status == 410 && is_some request_id && not e.retryable then some e.code else none
    else if text_eq e.code (codes "method_not_allowed")
    then some e.code
    else if text_eq e.code (codes "unsupported_media_type")
    then some e.code
    else none

abbrev allows : List ℕ → ℕ → Bool
allows [] status = false
allows (a ∷ r) status = status == a || allows r status

unfoldable pub http_error : Platform → HttpResponse → PairingHttpOperation → PairingHttpError
unfolding trusted_code
http_error x r operation =
    let envelope = if is_json (response_content_type r) then x.parse_envelope r.body else none in
    let received = received_of r.status envelope in
    let supported = supported_of r.status envelope in
    let request_id = request_of x envelope in
    record {
      operation = operation;
      status = r.status;
      code = trusted_code r.status envelope received supported request_id;
      received = received;
      supported = supported;
      request_id = request_id;
    }

unfoldable pub ensure_pairing_response :
    Platform → HttpResponse → List ℕ → PairingHttpOperation → Result Unit
ensure_pairing_response x r allowed operation =
    if allows allowed r.status then ok tt else err (http (http_error x r operation))

abbrev or_malformed : {A : Type 0} → Option A → Result A
or_malformed none = err (rejected malformed_response)
or_malformed (some a) = ok a

-- `parse_pairing_json`.
unfoldable pub parse_pairing_json : {A : Type 0} → (Text → Option A) → HttpResponse → Result A
parse_pairing_json parse r =
    if is_json (response_content_type r)
    then or_malformed (parse r.body)
    else err (rejected malformed_response)

abbrev after_create : PairingHttpOperation → Bool
after_create create = false
after_create activate = true
after_create poll = true

abbrev code_is : Text → Option Text → Bool
code_is t none = false
code_is t (some c) = text_eq c t

unfoldable pub transaction_missing : PairingHttpError → Bool
transaction_missing e =
    after_create e.operation
    && e.status == 404
    && code_is (codes "pairing_transaction_not_found") e.code
    && is_some e.request_id

unfoldable pub transaction_expired : PairingHttpError → Bool
transaction_expired e =
    after_create e.operation
    && e.status == 410
    && code_is (codes "pairing_transaction_expired") e.code
    && is_some e.request_id

abbrev names : Option Uuid → Uuid → Bool
names none r = false
names (some q) r = q == r

unfoldable pub transaction_ended_for : PairingHttpError → Uuid → Bool
transaction_ended_for e expected =
    (transaction_missing e || transaction_expired e) && names e.request_id expected

-- `error.downcast_ref::<PairingHttpError>().is_some_and(...)`.
unfoldable pub ended_for : Error → Uuid → Bool
ended_for (http e) expected = transaction_ended_for e expected
ended_for e expected = false
