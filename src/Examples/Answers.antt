-- ===== src/Examples/Answers.antt =====
-- The theorems on the answers of the report server at concrete inputs.
use host_monitoring_client.Common.{
  ℕ, suc, ◌≡◌, refl, ◌<◌, ◌≤◌, ◌⊎◌, true, false, Option, none, some, [], ◌∷◌,
}
use host_monitoring_client.Common.Text.{
  Text, codes, text_eq, to_ascii_lowercase, lower, trim, trim_start, is_whitespace, before,
  is_digit, byte_len, len_utf8,
}
use host_monitoring_client.Pairing.Platform.{Platform, ErrorEnvelope}
use host_monitoring_client.Pairing.Http.{HttpResponse}
use host_monitoring_client.Pairing.Local.{Reporter}
use host_monitoring_client.Transport.{
  SendError, unauthorized, rejection_message, label_of, classify_status, classify_xsos_response,
  retry_after_delay, is_application_json,
}
use host_monitoring_client.Transport.Send.{
  ReportFormat, Wire, Sent, send_queued_xsos, send_xsos_inner, prepare_report_body,
  validate_xsos_ack, same_identity,
}
use host_monitoring_client.Pairing.Identity.{for_instance, ensure_matches}
use host_monitoring_client.Transport.Safety.{
  deauthorizes, redacted, classify_status-redacted, deauthorizes-classify_xsos_response,
  retry_after_delay_bounds,
}
use host_monitoring_client.Transport.Delivery.{
  Posted, Acknowledged, send_queued_xsos-Posted, send_queued_xsos-Acknowledged,
}
use host_monitoring_client.Delivery.{discard}
use host_monitoring_client.Delivery.Outcomes.{disposed, disposed-validate_xsos_ack}
use host_monitoring_client.Exec.{World}
use host_monitoring_client.Exec.Runs.{Post}
use host_monitoring_client.Delivery.Driver.{
  Responded, reason_of, classify_failure, classify_failure-Responded,
}
use host_monitoring_client.Examples.Recovery.{interrupted}
use host_monitoring_client.Examples.Bench.{bench}
use host_monitoring_client.Transport.Binding.{BindingWire, Fetched, fetched}
use host_monitoring_client.Transport.Binding.Trusted.{Trusted}
use host_monitoring_client.Examples.Codec.{frame}

abbrev status_text : ℕ → Text
status_text n = codes "status"

abbrev schema : Text
schema = codes "1"

abbrev json : Option Text
json = some (codes "application/json")

-- The body is the code of a final refusal.
abbrev parse : Text → Option ErrorEnvelope
parse body = some (record {
  code = body;
  retryable = false;
  received = none;
  message = codes "refused";
  request_id = codes "4";
  supported = [];
  details_request_id = none;
})

deauthorizes-classify_xsos_response_example :
    deauthorizes (classify_xsos_response status_text schema parse 401 json (codes "unauthorized"))
    ≡ true
unfolding text_eq is_application_json to_ascii_lowercase lower trim trim_start is_whitespace before
deauthorizes-classify_xsos_response_example =
    deauthorizes-classify_xsos_response status_text schema parse 401 json (codes "unauthorized")

abbrev hostile : ErrorEnvelope
hostile = record {
  code = codes "<script>";
  retryable = true;
  received = some 3;
  message = codes "refused";
  request_id = codes "4";
  supported = [];
  details_request_id = some (codes "9");
}

classify_status-redacted_example :
    classify_status status_text schema 409 (some (redacted hostile))
    ≡ classify_status status_text schema 409 (some hostile)
classify_status-redacted_example = classify_status-redacted status_text schema 409 hostile

abbrev pause : ℕ
pause = 300

abbrev busy : ℕ
busy = 503

retry_after_delay_bounds_example : (0 < pause) × (pause ≤ 300) × ((busy ≡ 429) ⊎ (busy ≡ 503))
unfolding retry_after_delay is_digit
retry_after_delay_bounds_example = retry_after_delay_bounds busy (some (codes "86400")) pause refl

-- A report is a text, and so is its body; the server acknowledges it.
abbrev pub texts : ReportFormat Text
texts = record {
  report_id = λ r. r;
  host_id = λ r. frame (77 ∷ []);
  equal = text_eq;
  decode = λ t. some t;
  canonical = λ r. some r;
  encode = λ r. some (r, r);
}

abbrev pub wire : Wire
wire = record {
  max_body_bytes = 1000;
  status_text = status_text;
  schema_text = schema;
  parse_ack = λ body. some (record { host_id = frame (77 ∷ []); report_id = body });
  ack_position = λ body. codes "line 1";
  encode_problem = codes "too large";
}

abbrev pub reporter : Reporter
reporter = record {
  identity = frame (77 ∷ []);
  endpoint = codes "https://monitor.example/v1/report";
  token = codes "token";
  credential_revision = (1, 2);
}

-- The server acknowledges everything, and the network counts the requests.
abbrev pub acknowledges : Text → Text → Text → ℕ → Option (HttpResponse × Option Text) × ℕ
acknowledges endpoint token body n =
    (some (record { status = 202; content_type = json; body = body }, none), suc n)

abbrev sent : Sent ℕ
sent = send_queued_xsos bench texts wire reporter acknowledges (codes "r") (codes "r") 0

send_queued_xsos-Posted_example :
    (Sent.network sent ≡ 0)
    ⊎ Posted bench texts wire reporter acknowledges (codes "r") (codes "r") 0 sent
send_queued_xsos-Posted_example =
    send_queued_xsos-Posted bench texts wire reporter acknowledges (codes "r") (codes "r") 0

send_queued_xsos-Acknowledged_example :
    (response : HttpResponse) × (header : Option Text) × ((acknowledges
        (codes "https://monitor.example/v1/report")
        (codes "token")
        (codes "r")
        0).0
      ≡ some (response, header))
    × Acknowledged bench texts wire (codes "r") response
unfolding send_queued_xsos send_xsos_inner prepare_report_body validate_xsos_ack same_identity
    for_instance ensure_matches text_eq byte_len len_utf8 is_application_json to_ascii_lowercase
    lower trim trim_start is_whitespace before
send_queued_xsos-Acknowledged_example =
    send_queued_xsos-Acknowledged bench texts wire reporter acknowledges (codes "r") (codes "r") 0
      refl

-- The token of an interrupted commit's process is refused.
abbrev started : World
started = record { disk = interrupted; outcomes = []; now = 100; draws = 0 }

abbrev rejected_token : SendError
rejected_token = unauthorized (codes "xsos rejected telemetry with HTTP status: unauthorized")

-- The example platform, with a server that names the code of a final refusal in its body.
abbrev refusing : Platform
refusing = record bench { parse_envelope = parse }

classify_failure-Responded_example :
    Post
      (Responded refusing true (reason_of rejected_token) interrupted)
      (λ _ _. ⊥)
      (classify_failure refusing reporter rejected_token started)
unfolding text_eq is_application_json to_ascii_lowercase lower trim trim_start is_whitespace before
    classify_xsos_response classify_status rejection_message label_of validate_xsos_ack
classify_failure-Responded_example =
    classify_failure-Responded refusing texts wire 401 json (codes "unauthorized") (codes "r")
      rejected_token reporter interrupted started refl refl refl

-- A conflict is final.
disposed-validate_xsos_ack_example :
    disposed (validate_xsos_ack refusing texts wire 409 json (codes "conflict") (codes "r"))
    ≡ some discard
unfolding text_eq is_application_json to_ascii_lowercase lower trim trim_start is_whitespace before
disposed-validate_xsos_ack_example =
    disposed-validate_xsos_ack refusing texts wire 409 json (codes "conflict") (codes "r")

-- The server confirms the credential of the host.
abbrev binding_wire : BindingWire
binding_wire = record {
  protocol_version = 3;
  status_path = codes "/v1/credential-status";
  parse_credential_status =
      λ body. some (record { protocol_version = 3; host_id = body; instance_id = body });
}

abbrev confirms : Text → Text → Fetched
confirms address token =
    fetched (record { status = 200; content_type = json; body = frame (77 ∷ []) })
