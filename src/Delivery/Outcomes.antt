-- ===== src/Delivery/Outcomes.antt =====
-- What an answer does to a queued report, and how far apart the samples are.
use host_monitoring_client.Common.{
  ℕ, ◌≡◌, ◌∙◌, refl, arith, ◌+◌, ◌≤◌, ◌<◌, Bool, true, false, Option, none, some, ◌⊎◌, inl, inr,
  Bool-cases, if◌then◌else◌,
}
use host_monitoring_client.Common.Text.{Text}
use host_monitoring_client.Pairing.Platform.{Platform, ErrorEnvelope}
use host_monitoring_client.Transport.Send.{ReportFormat, Wire, validate_xsos_ack}
use host_monitoring_client.Transport.Queued.{
  is_acknowledged, validate_xsos_ack_cases, refusal_of_success,
}
use host_monitoring_client.Transport.{
  SendError, Sending, accepted, failed, is_success, classify_xsos_response, envelope_of,
  is_permanent, classify_status, bad_request,
}
use host_monitoring_client.Transport.Safety.{is_refusal, refusals, classify_status-permanent}
use host_monitoring_client.Delivery.{
  FailureDisposition, retain, discard, disposition, schedule_next,
}

if_false : {A : Type 0} (a b : A) (c : Bool) → c ≡ false → (if c then a else b) ≡ b
if_false a b c h = rw h

-- What becomes of a queued report.
abbrev pub disposed : Sending → Option FailureDisposition
disposed accepted = none
disposed (failed e) = some (disposition e)

abbrev pub is_mismatch : SendError → Bool
is_mismatch SendError.identity_mismatch = true
is_mismatch e = false

disposition_cases :
    (e : SendError)
    → is_mismatch e ≡ false
    → disposition e ≡ (if is_permanent e then discard else retain)
unfolding disposition
disposition_cases SendError.identity_mismatch h = ground arith
disposition_cases (SendError.permanent m) h = refl
disposition_cases (SendError.unauthorized m) h = refl
disposition_cases (SendError.unsupported_protocol m) h = refl
disposition_cases (SendError.transient m) h = refl
disposition_cases (SendError.future_timestamp m) h = refl

module _ (status_text : ℕ → Text) (schema_text : Text) where
  bad_request_mismatch :
      (m : Text) (e : Option ErrorEnvelope)
      → is_mismatch (bad_request status_text schema_text m e) ≡ false
  unfolding bad_request
  bad_request_mismatch m e = ground arith

  classify_status_mismatch :
      (status : ℕ) (e : Option ErrorEnvelope)
      → is_mismatch (classify_status status_text schema_text status e) ≡ false
  unfolding classify_status
  classify_status_mismatch status e = grind (arith, bad_request_mismatch)

  module _ (parse_envelope : Text → Option ErrorEnvelope) where
    disposed-classify_xsos_response :
        (status : ℕ) (content_type : Option Text) (body : Text)
        → disposed
            (classify_xsos_response status_text schema_text parse_envelope status content_type body)
          ≡ (if is_success status
              then none
              else some (
                  if is_refusal status (envelope_of parse_envelope content_type body) refusals
                  then discard
                  else retain))
    unfolding classify_xsos_response
    disposed-classify_xsos_response status content_type body =
        let e = envelope_of parse_envelope content_type body in
        let kind =
          disposition_cases (classify_status status_text schema_text status e)
            (classify_status_mismatch status e) in
        elim (Bool-cases (is_success status)) [
          | inl h ↦ rw h
          | inr h ↦ rw (h, kind, classify_status-permanent status_text schema_text status e)
        ]

module _ {R : Type 0} (x : Platform) (format : ReportFormat R) (wire : Wire) where
  -- Whatever a server answers to a queued report, it is accepted exactly for its own acknowledgement:
  -- status 202 with JSON of its host and report ids. Otherwise it is discarded for a final refusal of the
  -- table and retained for anything else, another 2xx answer included: no answer isolates a record.
  pub disposed-validate_xsos_ack :
      (status : ℕ) (content_type : Option Text) (body : Text) (report : R)
      → disposed (validate_xsos_ack x format wire status content_type body report) ≡ (
          if is_acknowledged x format wire status content_type body report
          then none
          else some (
              if is_refusal status (envelope_of x.parse_envelope content_type body) refusals
              then discard
              else retain))
  unfolding disposition is_permanent
  disposed-validate_xsos_ack status content_type body report =
      elim (validate_xsos_ack_cases x format wire status content_type body report) [
        | inl (e, acknowledged) ↦ rw (e, acknowledged)
        | inr (inl ((m, e), refused, success)) ↦
            rw (e, refused, refusal_of_success status content_type body x.parse_envelope success)
        | inr (inr (e, refused, failure)) ↦
            rw (e, refused)
              (disposed-classify_xsos_response wire.status_text wire.schema_text x.parse_envelope
                  status content_type body
                ∙ if_false _ _ (is_success status) failure)
      ]

-- The next sample lies in the future, a whole interval or more after the last deadline, at the cadence's own
-- time if that is still ahead, and otherwise one interval after now.
pub schedule_next_bounds :
    (deadline interval now : ℕ)
    → 0 < interval
    → (now < schedule_next deadline interval now)
      × (deadline + interval ≤ schedule_next deadline interval now)
      × ((deadline + interval ≤ now) ⊎ (schedule_next deadline interval now ≡ deadline + interval))
      × ((schedule_next deadline interval now ≡ deadline + interval)
          ⊎ (schedule_next deadline interval now ≡ now + interval))
unfolding schedule_next
schedule_next_bounds deadline interval now h =
    (ground arith, ground arith, ground arith, ground arith)
