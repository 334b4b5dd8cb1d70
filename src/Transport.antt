-- ===== src/Transport.antt =====
-- src/transport.rs: how the answers of the report server are read, and the sending of one report.
pub mod Send
pub mod Safety
pub mod Delivery
pub mod Queued
pub mod Binding
use host_monitoring_client.Common.{
  ℕ, ◌++◌, Bool, true, false, ◌&&◌, ◌||◌, not, Option, none, some, List, [], ◌∷◌, ◌==◌, leb, ltb,
  min, ◌*◌, ◌+◌, ◌-◌, ◌^◌, if◌then◌else◌, all,
}
use host_monitoring_client.Common.Text.{
  Text, codes, text_eq, trim, before, to_ascii_lowercase, is_digit,
}
use host_monitoring_client.Pairing.Platform.{ErrorEnvelope}

-- `SendError`. A message is what the log shows.
pub data SendError : Type 0 where
  identity_mismatch : SendError
  permanent unauthorized unsupported_protocol transient future_timestamp : Text → SendError

unfoldable pub is_permanent : SendError → Bool
is_permanent (permanent m) = true
is_permanent (unsupported_protocol m) = true
is_permanent e = false

unfoldable pub is_unauthorized : SendError → Bool
is_unauthorized (unauthorized m) = true
is_unauthorized e = false

unfoldable pub stable_code : SendError → Text
stable_code identity_mismatch = codes "identity_mismatch"
stable_code (permanent m) = codes "invalid_report"
stable_code (unauthorized m) = codes "unauthorized"
stable_code (unsupported_protocol m) = codes "unsupported_client_protocol"
stable_code (transient m) = codes "server_unavailable"
stable_code (future_timestamp m) = codes "report_future_timestamp"

unfoldable http_status : SendError → Option ℕ
http_status (unauthorized m) = some 401
http_status (unsupported_protocol m) = some 400
http_status (future_timestamp m) = some 400
http_status e = none

-- `Result<(), SendError>`.
pub data Sending : Type 0 where
  accepted : Sending
  failed : SendError → Sending

abbrev pub is_success : ℕ → Bool
is_success status = leb 200 status && leb status 299

-- `is_application_json`.
unfoldable pub is_application_json : Text → Bool
is_application_json value =
    text_eq (to_ascii_lowercase (trim (before b';' value))) (codes "application/json")

abbrev pub has_json : Option Text → Bool
has_json none = false
has_json (some value) = is_application_json value

-- The labels that a message may show.
unfoldable pub label_of : Text → Text
label_of code =
    if text_eq code (codes "bad_request")
      || text_eq code (codes "conflict")
      || text_eq code (codes "payload_too_large")
      || text_eq code (codes "unauthorized")
      || text_eq code (codes "client_host_mismatch")
      || text_eq code (codes "unsupported_client_protocol")
      || text_eq code (codes "report_future_timestamp")
    then code
    else codes "unrecognized error response"

abbrev pub detail_of : Option ErrorEnvelope → Text
detail_of none = codes "unrecognized error response"
detail_of (some e) = label_of e.code

-- The envelope of a final refusal with the code.
abbrev pub is_final : Text → Option ErrorEnvelope → Bool
is_final code none = false
is_final code (some e) = text_eq e.code code && not e.retryable

abbrev pub is_retryable : Text → Option ErrorEnvelope → Bool
is_retryable code none = false
is_retryable code (some e) = text_eq e.code code && e.retryable

-- Only a JSON answer has an envelope.
abbrev pub envelope_of : (Text → Option ErrorEnvelope) → Option Text → Text → Option ErrorEnvelope
envelope_of parse_envelope content_type body =
    if has_json content_type then parse_envelope body else none

module _ (status_text : ℕ → Text) (schema_text : Text) where
  -- `message` of `classify_xsos_response`: `status_text` prints the status as the http crate does.
  unfoldable pub rejection_message : ℕ → Text → Text
  rejection_message status detail =
      codes "xsos rejected telemetry with HTTP " ++ (status_text status ++ (codes ": " ++ detail))

  unfoldable pub bad_request : Text → Option ErrorEnvelope → SendError
  bad_request message envelope =
      if is_final (codes "unsupported_client_protocol") envelope
      then unsupported_protocol (
          message
          ++ codes
              "; client/server protocol versions do not match; upgrade both to the same release. Re-pairing will not fix this error")
      else if is_final (codes "bad_request") envelope
      then permanent (
          message
          ++ (codes "; report schema "
              ++ (schema_text
                  ++ codes
                      " was rejected. Check that client and server use the same protocol version; this report will not be retried")))
      else if is_retryable (codes "report_future_timestamp") envelope
      then future_timestamp message
      else transient message

  abbrev pub final_or_retry : Bool → (Text → SendError) → Text → SendError
  final_or_retry b kind message = if b then kind message else transient message

  -- The error of a status that is no success.
  unfoldable pub classify_status : ℕ → Option ErrorEnvelope → SendError
  classify_status status envelope =
      let message = rejection_message status (detail_of envelope) in
      if status == 400
      then bad_request message envelope
      else if status == 409
      then final_or_retry (is_final (codes "conflict") envelope) permanent message
      else if status == 413
      then final_or_retry (is_final (codes "payload_too_large") envelope) permanent message
      else if status == 421
      then transient (
          message
          ++ codes
              " (this is a deployment configuration problem, not invalid credentials: check whether the reverse proxy forwards X-Forwarded-Proto and X-Forwarded-For)")
      else if status == 401
      then final_or_retry (is_final (codes "unauthorized") envelope) unauthorized message
      else if status == 403
      then final_or_retry (is_final (codes "client_host_mismatch") envelope) permanent message
      else transient message

  module _ (parse_envelope : Text → Option ErrorEnvelope) where
    unfoldable pub classify_xsos_response : ℕ → Option Text → Text → Sending
    classify_xsos_response status content_type body =
        if is_success status
        then accepted
        else failed (classify_status status (envelope_of parse_envelope content_type body))

-- `ClientReportAck`.
pub record ClientReportAck : Type 0 where
  pub host_id : Text
  pub report_id : Text

-- The digits of `Retry-After` as a number, `str::parse::<u64>`.
unfoldable digits_value : ℕ → Text → ℕ
digits_value n [] = n
digits_value n (c ∷ t) = digits_value (n * 10 + (c - b'0')) t

abbrev is_blank : Text → Bool
is_blank [] = true
is_blank (c ∷ t) = false

-- A value over the 64 bits of the parser is none at all.
abbrev bounded_seconds : ℕ → Option ℕ
bounded_seconds seconds =
    if leb (2 ^ 64) seconds then none else if ltb 0 seconds then some (min seconds 300) else none

abbrev retry_after_value : Option Text → Option ℕ
retry_after_value none = none
retry_after_value (some value) =
    if is_blank value || not (all is_digit value)
    then none
    else bounded_seconds (digits_value 0 value)

-- `retry_after_delay`, in seconds.
unfoldable pub retry_after_delay : ℕ → Option Text → Option ℕ
unfolding digits_value
retry_after_delay status retry_after =
    if not (status == 429) && not (status == 503) then none else retry_after_value retry_after
