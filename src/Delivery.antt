-- ===== src/Delivery.antt =====
-- src/monitor_app/delivery: `disposition`, `run_once` and the cadence of the samples.
pub mod Once
pub mod Outcomes
pub mod Driver
pub mod Composed
use host_monitoring_client.Common.{
  ℕ, zero, suc, ◌+◌, Bool, true, false, Option, none, some, ltb, if◌then◌else◌, length,
}
use host_monitoring_client.Common.Text.{Text, text_eq}
use host_monitoring_client.Transport.{SendError, Sending, accepted, failed, is_permanent}
use host_monitoring_client.Transport.Send.{ReportFormat}
use host_monitoring_client.Spool.{
  QuarantineReason, Inner, Contract, PendingReport, Found, spool_failed, queue_empty, oldest_report,
  EnqueueEnd, stored, unencodable, over_limit, spool_refused, pending_count, enqueue, acknowledge,
  oldest,
}

-- xcsc's `FailureDisposition`.
pub data FailureDisposition : Type 0 where
  retain discard : FailureDisposition
  isolate : QuarantineReason → FailureDisposition

-- `HostDeliveryAdapter::disposition`.
unfoldable pub disposition : SendError → FailureDisposition
disposition SendError.identity_mismatch = isolate QuarantineReason.identity_mismatch
disposition error = if is_permanent error then discard else retain

-- `SamplingCadence::schedule_next`: the next deadline, in the units of the clock.
unfoldable pub schedule_next : ℕ → ℕ → ℕ → ℕ
schedule_next deadline interval now =
    let anchored = deadline + interval in if ltb now anchored then anchored else now + interval

pub data RunOnceOutcome : Type 0 where
  delivered shutdown : RunOnceOutcome

-- The errors of `run_once`.
pub data OnceError : Type 0 where
  spool_unavailable report_unencodable body_over_limit : OnceError
  flush_broken disappeared another_report : OnceError
  stored_pending rejected retained : SendError → OnceError

pub data OnceResult : Type 0 where
  finished : RunOnceOutcome → OnceResult
  stopped : OnceError → OnceResult

abbrev pub is_delivered : OnceResult → Bool
is_delivered (finished delivered) = true
is_delivered outcome = false

-- xcsc's `BatchOutcome`.
pub data FlushOutcome : Type 0 where
  drained batch_complete : FlushOutcome
  flush_failed : SendError → FlushOutcome

-- How the command ended, the spool that it leaves, and the report that it began to send with the spool as it
-- was then.
pub record OnceRun (R Q : Type 0) : Type 0 where
  pub outcome : OnceResult
  pub queue : Q
  pub sent : Option (R × Text × Q)

-- What the command meets: the sampler, `flush_spool`, the sending of one report and the OTLP export. Where a
-- result is none, the shutdown came first; a flush without an outcome failed on the spool.
pub record Surroundings (R Q : Type 0) : Type 0 where
  pub collect : ℕ → R
  pub flush_spool : Q → Option (Option FlushOutcome) × Q
  pub send : R → Text → Option Sending
  pub send_otlp : R → Option Bool

module _ {R Q Stamp : Type 0} (format : ReportFormat R) (contract : Contract)
    (inner : Inner Q Stamp) (stamp : R → Stamp) where
  abbrev ends : OnceResult → Q → OnceRun R Q
  ends outcome q = record { outcome = outcome; queue = q; sent = none }

  -- `enqueue`, then the given end.
  abbrev pub enqueue_then : OnceResult → EnqueueEnd × Q → OnceRun R Q
  enqueue_then outcome (stored, q) = ends outcome q
  enqueue_then outcome (unencodable, q) = ends (stopped report_unencodable) q
  enqueue_then outcome (over_limit, q) = ends (stopped body_over_limit) q
  enqueue_then outcome (spool_refused, q) = ends (stopped spool_unavailable) q

  -- `retain_once_report`.
  unfoldable pub retain_once_report : R → Q → OnceRun R Q
  retain_once_report report q =
      enqueue_then (finished shutdown) (enqueue format contract inner stamp report q)

  module _ (around : Surroundings R Q) where
    abbrev acknowledge_then : OnceResult → PendingReport R → Q → OnceRun R Q
    acknowledge_then outcome queued q =
        let after = acknowledge format contract inner queued q in
        record {
          outcome = if after.0 then outcome else stopped spool_unavailable;
          queue = after.1;
          sent = some (queued.report, queued.body, q);
        }

    abbrev keep : OnceResult → PendingReport R → Q → OnceRun R Q
    keep outcome queued q = record {
      outcome = outcome;
      queue = q;
      sent = some (queued.report, queued.body, q);
    }

    abbrev pub exported : Option Bool → OnceResult
    exported none = finished shutdown
    exported (some done) = finished delivered

    abbrev pub after_send : PendingReport R → Q → Option Sending → OnceRun R Q
    after_send queued q none = keep (finished shutdown) queued q
    after_send queued q (some accepted) =
        acknowledge_then (exported (around.send_otlp queued.report)) queued q
    after_send queued q (some (failed e)) =
        if is_permanent e
        then acknowledge_then (stopped (rejected e)) queued q
        else keep (stopped (retained e)) queued q

    abbrev pub after_search : R → Option (Found R × Q) → Option (OnceRun R Q)
    after_search report none = none
    after_search report (some (spool_failed, q)) = some (ends (stopped spool_unavailable) q)
    after_search report (some (queue_empty, q)) = some (ends (stopped disappeared) q)
    after_search report (some (oldest_report queued, q)) =
        if text_eq (format.report_id queued.report) (format.report_id report)
        then some (after_send queued q (around.send queued.report queued.body))
        else some (ends (stopped another_report) q)

    abbrev pub after_enqueue : R → EnqueueEnd × Q → Option (OnceRun R Q)
    after_enqueue report (unencodable, q) = some (ends (stopped report_unencodable) q)
    after_enqueue report (over_limit, q) = some (ends (stopped body_over_limit) q)
    after_enqueue report (spool_refused, q) = some (ends (stopped spool_unavailable) q)
    after_enqueue report (stored, q) =
        after_search report (oldest format contract inner (suc (length (inner.pending q))) q)

    -- The part after the loop.
    unfoldable pub deliver_current : R → Q → Option (OnceRun R Q)
    deliver_current report q = after_enqueue report (enqueue format contract inner stamp report q)

    -- The loop over the reports of earlier runs, on fuel.
    unfoldable pub flush_stored : ℕ → R → Q → Option (OnceRun R Q)
    flush_stored zero report q = none
    flush_stored (suc n) report q = elim (pending_count format contract inner q) [
      | none ↦ some (ends (stopped spool_unavailable) q)
      | some zero ↦ deliver_current report q
      | some (suc k) ↦
          let flush = around.flush_spool q in
          elim (flush.0) [
            | none ↦ some (retain_once_report report (flush.1))
            | some none ↦ some (
                enqueue_then (stopped flush_broken)
                  (enqueue format contract inner stamp report (flush.1)))
            | some (some (flush_failed e)) ↦ some (
                enqueue_then (stopped (stored_pending e))
                  (enqueue format contract inner stamp report (flush.1)))
            | some (some drained) ↦ flush_stored n report (flush.1)
            | some (some batch_complete) ↦ flush_stored n report (flush.1)
          ]
    ]

    unfoldable pub run_once : ℕ → Q → Option (OnceRun R Q)
    run_once n q = elim (pending_count format contract inner q) [
      | none ↦ some (ends (stopped spool_unavailable) q)
      | some k ↦ flush_stored n (around.collect k) q
    ]
