-- ===== src/Transport/Queued.antt =====
-- What `validate_xsos_ack` of src/transport.rs makes of an answer, on every branch.
use host_monitoring_client.Common.{
  ℕ, ◌≡◌, refl, ◌⊎◌, inl, inr, arith, Bool, true, false, ◌&&◌, Option, none, some, ◌==◌, Bool-cases,
}
use host_monitoring_client.Common.Text.{Text, codes}
use host_monitoring_client.Pairing.Platform.{Platform, ErrorEnvelope}
use host_monitoring_client.Transport.{
  Sending, accepted, failed, transient, is_unauthorized, ClientReportAck, has_json, is_success,
  is_final, envelope_of, classify_xsos_response,
}
use host_monitoring_client.Transport.Send.{
  ReportFormat, Wire, check_ack, same_ids, validate_xsos_ack,
}
use host_monitoring_client.Transport.Safety.{
  deauthorizes, is_refusal, refusals, deauthorizes-classify_xsos_response,
}

pub refusal_of_success :
    (status : ℕ) (content_type : Option Text) (body : Text) (parse : Text → Option ErrorEnvelope)
    → is_success status ≡ true
    → is_refusal status (envelope_of parse content_type body) refusals ≡ false
refusal_of_success status content_type body parse h = ground arith

module _ {R : Type 0} (x : Platform) (format : ReportFormat R) (wire : Wire) where
  abbrev pub names_report : R → Option ClientReportAck → Bool
  names_report report none = false
  names_report report (some ack) = same_ids x format wire report ack

  -- The acknowledgement of a report: status 202, JSON, and its host and report ids.
  abbrev pub is_acknowledged : ℕ → Option Text → Text → R → Bool
  is_acknowledged status content_type body report =
      status == 202 && has_json content_type && names_report report (wire.parse_ack body)

  -- A failure that says neither that the report nor that the credential is refused.
  abbrev pub Passing : Sending → Type 0
  Passing s = (m : Text) × (s ≡ failed (transient m))

  -- The three ways of an answer.
  pub validate_xsos_ack_cases :
      (status : ℕ) (content_type : Option Text) (body : Text) (report : R)
      → ((validate_xsos_ack x format wire status content_type body report ≡ accepted)
          × (is_acknowledged status content_type body report ≡ true))
        ⊎ (Passing (validate_xsos_ack x format wire status content_type body report)
            × (is_acknowledged status content_type body report ≡ false)
            × (is_success status ≡ true))
        ⊎ ((validate_xsos_ack x format wire status content_type body report
              ≡ classify_xsos_response wire.status_text wire.schema_text x.parse_envelope status
                  content_type body)
            × (is_acknowledged status content_type body report ≡ false)
            × (is_success status ≡ false))
  unfolding validate_xsos_ack
  validate_xsos_ack_cases status content_type body report = elim (Bool-cases (status == 202)) [
    | inl at ↦ elim (Bool-cases (has_json content_type)) [
      | inl json ↦ rw (at, json) (by_ack at (wire.parse_ack body))
      | inr other ↦ rw (at, other) (inr (inl ((_, refl), refl, ground arith)))
    ]
    | inr other ↦ elim (Bool-cases (is_success status)) [
      | inl success ↦ rw (other, success) (inr (inl ((_, refl), refl, refl)))
      | inr failure ↦ rw (other, failure) (inr (inr (refl, refl, refl)))
    ]
  ]
    where
      by_ack :
          (status == 202) ≡ true
          → (a : Option ClientReportAck)
          → ((check_ack x format wire report a body status ≡ accepted)
              × (names_report report a ≡ true))
            ⊎ (Passing (check_ack x format wire report a body status)
                × (names_report report a ≡ false)
                × (is_success status ≡ true))
            ⊎ ((check_ack x format wire report a body status
                  ≡ classify_xsos_response wire.status_text wire.schema_text x.parse_envelope status
                      content_type body)
                × (names_report report a ≡ false)
                × (is_success status ≡ false))
      by_ack at none = inr (inl ((_, refl), refl, ground arith))
      by_ack at (some ack) = elim (Bool-cases (same_ids x format wire report ack)) [
        | inl same ↦ rw same (inl (refl, refl))
        | inr other ↦ rw other (inr (inl ((_, refl), refl, ground arith)))
      ]

  -- The credential counts as refused only on a final 401, as for any answer.
  pub deauthorizes-validate_xsos_ack :
      (status : ℕ) (content_type : Option Text) (body : Text) (report : R)
      → deauthorizes (validate_xsos_ack x format wire status content_type body report) ≡ (
          status == 401
          && is_final (codes "unauthorized") (envelope_of x.parse_envelope content_type body))
  unfolding is_unauthorized
  deauthorizes-validate_xsos_ack status content_type body report =
      elim (validate_xsos_ack_cases status content_type body report) [
        | inl (e, acknowledged) ↦ rw e (ground arith)
        | inr (inl ((m, e), refused, success)) ↦ rw e (ground arith)
        | inr (inr (e, refused, failure)) ↦ rw e (
            deauthorizes-classify_xsos_response wire.status_text wire.schema_text x.parse_envelope
              status content_type body)
      ]
