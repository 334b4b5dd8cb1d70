-- ===== src/Delivery/Composed.antt =====
-- `run_once` with the sending of src/transport.rs: what "delivered" means to the server.
use host_monitoring_client.Common.{
  ℕ, ◌≡◌, arith, ◌<◌, Bool, true, false, Option, none, some, ◌⊎◌, inl, inr, if◌then◌else◌, length,
}
use host_monitoring_client.Common.Text.{Text, text_eq}
use host_monitoring_client.Pairing.Platform.{Platform}
use host_monitoring_client.Pairing.Http.{HttpResponse}
use host_monitoring_client.Pairing.Local.{Reporter}
use host_monitoring_client.Transport.{Sending, accepted}
use host_monitoring_client.Transport.Send.{ReportFormat, Wire, Sent, Post, send_queued_xsos}
use host_monitoring_client.Transport.Delivery.{Acknowledged, send_queued_xsos-Acknowledged}
use host_monitoring_client.Spool.{Inner, InnerLaws, Contract}
use host_monitoring_client.Delivery.{OnceRun, Surroundings, FlushOutcome, run_once, is_delivered}
use host_monitoring_client.Delivery.Once.{FlushProgress, Honest, run_once-Safe}

-- What the command meets besides the sending of one report, and whether a shutdown comes before that.
pub record Meeting (R Q : Type 0) : Type 0 where
  pub collect : ℕ → R
  pub flush_spool : Q → Option (Option FlushOutcome) × Q
  pub shutdown_first : R → Bool
  pub send_otlp : R → Option Bool

accepted_only :
    (stops : Bool) (s : Sending) → (if stops then none else some s) ≡ some accepted → s ≡ accepted
accepted_only true s h = ground arith
accepted_only false s h = ground arith

module _ {R Q N : Type 0} (x : Platform) (format : ReportFormat R) (wire : Wire)
    (reporter : Reporter) (post : Post N) (network : N) (meeting : Meeting R Q) where
  abbrev pub surroundings : Surroundings R Q
  surroundings = record {
    collect = meeting.collect;
    flush_spool = meeting.flush_spool;
    send = λ report body.
        if meeting.shutdown_first report
        then none
        else some (Sent.result (send_queued_xsos x format wire reporter post report body network));
    send_otlp = meeting.send_otlp;
  }

  -- The command does not say that it delivered, or the server acknowledged the report of the current id, as
  -- it was sent to the reporter's endpoint with its token.
  abbrev pub Told : R → OnceRun R Q → Type 0
  Told current run =
      (is_delivered run.outcome ≡ false)
      ⊎ ((report : R) × (body : Text) × (q : Q) × (response : HttpResponse) × (header : Option Text)
          × (run.sent ≡ some (report, body, q))
          × ((post reporter.endpoint reporter.token body network).0 ≡ some (response, header))
          × Acknowledged x format wire report response
          × (text_eq (format.report_id report) (format.report_id current) ≡ true))

  module _ {Stamp : Type 0} (contract : Contract) (inner : Inner Q Stamp) (laws : InnerLaws inner)
      (stamp : R → Stamp) where
    Honest-Told :
        (current : R) (run : OnceRun R Q)
        → Honest format contract inner laws stamp surroundings current run
        → Told current run
    Honest-Told current run (inl h) = inl h
    Honest-Told current run (inr (report, body, q, sent, result, same)) =
        let answer = send_queued_xsos-Acknowledged x format wire reporter post report body network (
          accepted_only (meeting.shutdown_first report)
            (Sent.result (send_queued_xsos x format wire reporter post report body network))
            result) in
        let (response, header, posted, acknowledged) = answer in
        inr (report, body, q, response, header, sent, posted, acknowledged, same)

    -- With fuel over the number of stored reports and a delivery pass that makes progress, the command comes
    -- to an end, and it says that it delivered only if the server acknowledged the current report: with status
    -- 202 and JSON of its host and report ids, in answer to the post of the queued body at the reporter's
    -- endpoint with its token.
    pub run_once-Told :
        FlushProgress format contract inner laws stamp surroundings
        → (n : ℕ) (q : Q) (count : ℕ) (bounded : R) (body : Text) → inner.usage q ≡ some count
        → format.encode (meeting.collect count) ≡ some (bounded, body)
        → length (inner.pending q) < n
        → (run : OnceRun R Q) × (run_once format contract inner stamp surroundings n q ≡ some run)
          × Told (meeting.collect count) run
    run_once-Told progress n q count bounded body usage encoded h =
        let (run, ends, safe) =
          run_once-Safe format contract inner laws stamp surroundings progress n q count bounded
            body usage encoded h in
        (run, ends, Honest-Told (meeting.collect count) run (safe.2))
