-- ===== src/Transport/Send.antt =====
-- `Reporter::send_xsos` of src/transport.rs and what it calls.
use host_monitoring_client.Common.{
  ℕ, ◌++◌, Bool, true, false, ◌&&◌, not, Option, none, some, ◌==◌, ltb, if◌then◌else◌,
}
use host_monitoring_client.Common.Text.{Text, codes, text_eq, byte_len}
use host_monitoring_client.Exec.{Result, ok, err}
use host_monitoring_client.Pairing.Platform.{Platform}
use host_monitoring_client.Pairing.Http.{HttpResponse}
use host_monitoring_client.Pairing.Identity.{for_instance, ensure_matches}
use host_monitoring_client.Pairing.Local.{Reporter}
use host_monitoring_client.Transport.{
  SendError, identity_mismatch, permanent, transient, future_timestamp, Sending, accepted, failed,
  ClientReportAck, is_success, has_json, classify_xsos_response, retry_after_delay,
}

-- What sending asks of the report's format: the fields that it compares, the JSON codec, and the two
-- entries of src/report_contract.rs.
pub record ReportFormat (R : Type 0) : Type 0 where
  pub report_id : R → Text
  pub host_id : R → Text
  pub equal : R → R → Bool
  pub decode : Text → Option R
  pub canonical : R → Option R
  pub encode : R → Option (R × Text)

-- `CLIENT_REPORT_MAX_BODY_BYTES`, and the texts that serde and the http crate print.
pub record Wire : Type 0 where
  pub max_body_bytes : ℕ
  pub status_text : ℕ → Text
  pub schema_text : Text
  pub parse_ack : Text → Option ClientReportAck
  pub ack_position : Text → Text
  pub encode_problem : Text

pub data Prepared (R : Type 0) : Type 0 where
  prepared : R → Text → Prepared R
  refused : SendError → Prepared R

-- How the sending ended: the result, the pause before it is returned, and the network after it.
pub record Sent (N : Type 0) : Type 0 where
  pub result : Sending
  pub pause : Option ℕ
  pub network : N

-- The HTTP client over the state N of the network: the answer and its `Retry-After`, or a failure.
abbrev pub Post : Type 0 → Type 0
Post N = Text → Text → Text → N → Option (HttpResponse × Option Text) × N

abbrev pub may_pause : Sending → Bool
may_pause (failed (transient m)) = true
may_pause (failed (future_timestamp m)) = true
may_pause r = false

abbrev pub is_ok : {A : Type 0} → Result A → Bool
is_ok (ok a) = true
is_ok (err e) = false

module _ {R : Type 0} (x : Platform) (format : ReportFormat R) (wire : Wire) where
  abbrev invalid : Text → SendError
  invalid reason = permanent (codes "invalid Client report: " ++ reason)

  abbrev pub canonical_body : R → Text → Option R → Prepared R
  canonical_body report body none =
      refused (invalid (codes "queued report violates the current contract"))
  canonical_body report body (some canonical) =
      if not (format.equal canonical report)
      then refused (invalid (codes "queued report is not canonical"))
      else prepared report body

  abbrev pub decoded_body : R → Text → Option R → Prepared R
  decoded_body report body none = refused (invalid (codes "queued body is malformed"))
  decoded_body report body (some decoded) =
      if not (format.equal decoded report)
      then refused (invalid (codes "queued body does not match its parsed report"))
      else canonical_body report body (format.canonical report)

  abbrev pub fresh_body : Option (R × Text) → Prepared R
  fresh_body none = refused (invalid wire.encode_problem)
  fresh_body (some (bounded, body)) = prepared bounded body

  unfoldable pub prepare_report_body : R → Option Text → Prepared R
  prepare_report_body report none = fresh_body (format.encode report)
  prepare_report_body report (some body) =
      if ltb wire.max_body_bytes (byte_len body)
      then refused (invalid (codes "queued body exceeds the report size limit"))
      else decoded_body report body (format.decode body)

  abbrev pub same_ids : R → ClientReportAck → Bool
  same_ids report ack =
      text_eq ack.host_id (format.host_id report) && text_eq ack.report_id (format.report_id report)

  abbrev pub check_ack : R → Option ClientReportAck → Text → ℕ → Sending
  check_ack report none body status = failed (
      transient (
        codes "xsos returned HTTP "
        ++ (wire.status_text status
            ++ (codes " with an invalid acknowledgement at " ++ wire.ack_position body))))
  check_ack report (some ack) body status =
      if same_ids report ack
      then accepted
      else failed (transient (codes "xsos acknowledgement identity mismatch"))

  unfoldable pub validate_xsos_ack : ℕ → Option Text → Text → R → Sending
  validate_xsos_ack status content_type body report =
      if not (status == 202)
      then if is_success status
        then failed (
            transient (
              codes "xsos returned unexpected HTTP "
              ++ (wire.status_text status
                  ++ codes "; report acknowledgements require HTTP 202 Accepted")))
        else classify_xsos_response wire.status_text wire.schema_text x.parse_envelope status
            content_type body
      else if not (has_json content_type)
      then failed (
          transient (
            codes "xsos returned HTTP "
            ++ (wire.status_text status ++ codes " without Content-Type application/json")))
      else check_ack report (wire.parse_ack body) body status

  abbrev stops : {N : Type 0} → SendError → N → Sent N
  stops e n = record { result = failed e; pause = none; network = n }

  -- `validate_report_identity`.
  unfoldable pub same_identity : Reporter → R → Bool
  same_identity reporter report = elim (for_instance x (format.host_id report)) [
    | ok theirs ↦ is_ok (ensure_matches reporter.identity theirs)
    | err e ↦ false
  ]

  -- What follows the call of `post_bounded`.
  abbrev pub answered : {N : Type 0} → R → Option (HttpResponse × Option Text) × N → Sent N
  answered report (none, n) = record {
    result = failed (transient (codes "xsos request failed"));
    pause = none;
    network = n;
  }
  answered report (some (response, retry_after), n) =
      let result = validate_xsos_ack response.status response.content_type response.body report in
      record {
        result = result;
        pause = if may_pause result then retry_after_delay response.status retry_after else none;
        network = n;
      }

  abbrev pub send_prepared : {N : Type 0} → Reporter → Post N → Prepared R → N → Sent N
  send_prepared reporter post (refused e) n = stops e n
  send_prepared reporter post (prepared bounded body) n =
      if not (same_identity reporter bounded)
      then stops identity_mismatch n
      else if not (x.header_accepts (codes "Bearer " ++ reporter.token))
      then stops (transient (codes "invalid host authorization header")) n
      else answered bounded (post reporter.endpoint reporter.token body n)

  unfoldable pub send_xsos_inner : {N : Type 0} → Reporter → Post N → R → Option Text → N → Sent N
  send_xsos_inner reporter post report queued_body n =
      send_prepared reporter post (prepare_report_body report queued_body) n

  unfoldable pub send_xsos : {N : Type 0} → Reporter → Post N → R → N → Sent N
  send_xsos reporter post report n = send_xsos_inner reporter post report none n

  unfoldable pub send_queued_xsos : {N : Type 0} → Reporter → Post N → R → Text → N → Sent N
  send_queued_xsos reporter post report body n = send_xsos_inner reporter post report (some body) n
