-- ===== src/Transport/Safety.antt =====
-- What the answers of a server, or of a proxy in its place, can do to a report and to the credential.
use host_monitoring_client.Common.{
  ℕ, ◌≡◌, arith, Bool, false, ◌&&◌, ◌||◌, not, Option, none, some, ◌==◌, ◌≤◌, ◌<◌, ◌⊎◌, inl, inr,
  Bool-cases, List, [], ◌∷◌,
}
use host_monitoring_client.Common.Text.{Text, codes, text_eq}
use host_monitoring_client.Pairing.Platform.{ErrorEnvelope}
use host_monitoring_client.Transport.{
  Sending, accepted, failed, is_permanent, is_unauthorized, label_of, is_final, is_success,
  classify_status, classify_xsos_response, bad_request, retry_after_delay, envelope_of,
  rejection_message, detail_of,
}

-- A refusal that ends a report, by its status and its code.
abbrev pub is_refusal : ℕ → Option ErrorEnvelope → List (ℕ × Text) → Bool
is_refusal status envelope [] = false
is_refusal status envelope ((s, code) ∷ rest) =
    (status == s && is_final code envelope) || is_refusal status envelope rest

abbrev pub refusals : List (ℕ × Text)
refusals =
    (400, codes "bad_request")
    ∷ (400, codes "unsupported_client_protocol")
    ∷ (409, codes "conflict")
    ∷ (413, codes "payload_too_large")
    ∷ (403, codes "client_host_mismatch")
    ∷ []

abbrev pub discards : Sending → Bool
discards accepted = false
discards (failed e) = is_permanent e

abbrev pub deauthorizes : Sending → Bool
deauthorizes accepted = false
deauthorizes (failed e) = is_unauthorized e

module _ (status_text : ℕ → Text) (schema_text : Text) where
  bad_request-permanent :
      (m : Text) (e : Option ErrorEnvelope)
      → is_permanent (bad_request status_text schema_text m e)
        ≡ (is_final (codes "bad_request") e || is_final (codes "unsupported_client_protocol") e)
  unfolding bad_request is_permanent
  bad_request-permanent m e = ground arith

  bad_request-not-unauthorized :
      (m : Text) (e : Option ErrorEnvelope)
      → is_unauthorized (bad_request status_text schema_text m e) ≡ false
  unfolding bad_request is_unauthorized
  bad_request-not-unauthorized m e = ground arith

  pub classify_status-permanent :
      (status : ℕ) (e : Option ErrorEnvelope)
      → is_permanent (classify_status status_text schema_text status e)
        ≡ is_refusal status e refusals
  unfolding classify_status is_permanent
  classify_status-permanent status e = ground (
    arith,
    bad_request-permanent (rejection_message status_text schema_text status (detail_of e)) e,
  )

  classify_status-unauthorized :
      (status : ℕ) (e : Option ErrorEnvelope)
      → is_unauthorized (classify_status status_text schema_text status e)
        ≡ (status == 401 && is_final (codes "unauthorized") e)
  unfolding classify_status is_unauthorized
  classify_status-unauthorized status e = ground (
    arith,
    bad_request-not-unauthorized (rejection_message status_text schema_text status (detail_of e)) e,
  )

module _ (status_text : ℕ → Text) (schema_text : Text)
    (parse_envelope : Text → Option ErrorEnvelope) where
  -- A report is discarded exactly for a status that is no success and that stands in the table beside the
  -- code of a final JSON error envelope.
  discards-classify_xsos_response :
      (status : ℕ) (content_type : Option Text) (body : Text)
      → discards
          (classify_xsos_response status_text schema_text parse_envelope status content_type body)
        ≡ (not (is_success status)
            && is_refusal status (envelope_of parse_envelope content_type body) refusals)
  unfolding classify_xsos_response
  discards-classify_xsos_response status content_type body =
      let e = envelope_of parse_envelope content_type body in
      elim (Bool-cases (is_success status)) [
        | inl h ↦ rw h
        | inr h ↦ rw h (classify_status-permanent status_text schema_text status e)
      ]

  -- The credential counts as refused exactly on status 401 with a final JSON envelope of code
  -- "unauthorized".
  pub deauthorizes-classify_xsos_response :
      (status : ℕ) (content_type : Option Text) (body : Text)
      → deauthorizes
          (classify_xsos_response status_text schema_text parse_envelope status content_type body)
        ≡ (status == 401
            && is_final (codes "unauthorized") (envelope_of parse_envelope content_type body))
  unfolding classify_xsos_response
  deauthorizes-classify_xsos_response status content_type body =
      let e = envelope_of parse_envelope content_type body in
      let at = classify_status-unauthorized status_text schema_text status e in
      elim (Bool-cases (is_success status)) [ inl h ↦ rw h (ground arith) | inr h ↦ rw h at ]

label_bad_request :
    (code : Text)
    → text_eq (label_of code) (codes "bad_request") ≡ text_eq code (codes "bad_request")
unfolding label_of text_eq
label_bad_request code = ground arith

label_conflict :
    (code : Text) → text_eq (label_of code) (codes "conflict") ≡ text_eq code (codes "conflict")
unfolding label_of text_eq
label_conflict code = ground arith

label_payload_too_large :
    (code : Text)
    → text_eq (label_of code) (codes "payload_too_large") ≡ text_eq code (codes "payload_too_large")
unfolding label_of text_eq
label_payload_too_large code = ground arith

label_unauthorized :
    (code : Text)
    → text_eq (label_of code) (codes "unauthorized") ≡ text_eq code (codes "unauthorized")
unfolding label_of text_eq
label_unauthorized code = ground arith

label_client_host_mismatch :
    (code : Text)
    → text_eq (label_of code) (codes "client_host_mismatch")
      ≡ text_eq code (codes "client_host_mismatch")
unfolding label_of text_eq
label_client_host_mismatch code = ground arith

label_unsupported_client_protocol :
    (code : Text)
    → text_eq (label_of code) (codes "unsupported_client_protocol")
      ≡ text_eq code (codes "unsupported_client_protocol")
unfolding label_of text_eq
label_unsupported_client_protocol code = ground arith

label_report_future_timestamp :
    (code : Text)
    → text_eq (label_of code) (codes "report_future_timestamp")
      ≡ text_eq code (codes "report_future_timestamp")
unfolding label_of text_eq
label_report_future_timestamp code = ground arith

label_of_idem : (code : Text) → label_of (label_of code) ≡ label_of code
unfolding label_of text_eq
label_of_idem code = ground arith

-- The envelope with no more of the server's text than a message may show.
abbrev pub redacted : ErrorEnvelope → ErrorEnvelope
redacted e = record {
  code = label_of e.code;
  retryable = e.retryable;
  received = none;
  message = [];
  request_id = [];
  supported = [];
  details_request_id = none;
}

module _ (status_text : ℕ → Text) (schema_text : Text) where
  -- What an error says depends on the server's text by its label and its retryable mark alone.
  pub classify_status-redacted :
      (status : ℕ) (e : ErrorEnvelope)
      → classify_status status_text schema_text status (some (redacted e))
        ≡ classify_status status_text schema_text status (some e)
  unfolding classify_status bad_request
  classify_status-redacted status e = rw (
    label_of_idem e.code,
    label_bad_request e.code,
    label_conflict e.code,
    label_payload_too_large e.code,
    label_unauthorized e.code,
    label_client_host_mismatch e.code,
    label_unsupported_client_protocol e.code,
    label_report_future_timestamp e.code,
  )

-- A pause that the server asks for is at least one second and at most 300, and only status 429 or 503 can ask
-- for one.
pub retry_after_delay_bounds :
    (status : ℕ) (header : Option Text) (seconds : ℕ)
    → retry_after_delay status header ≡ some seconds
    → (0 < seconds) × (seconds ≤ 300) × ((status ≡ 429) ⊎ (status ≡ 503))
unfolding retry_after_delay
retry_after_delay_bounds status none seconds h = ground arith
retry_after_delay_bounds status (some value) seconds h = ground arith
