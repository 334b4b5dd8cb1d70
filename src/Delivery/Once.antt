-- ===== src/Delivery/Once.antt =====
-- The current report of `run_once`: kept until the server has decided on it.
use host_monitoring_client.Common.{
  ℕ, zero, suc, ◌≡◌, refl, ap, ◌∙◌, arith, ◌<◌, Bool, true, false, Option, none, some, List, [],
  ◌∷◌, ◌⊎◌, inl, inr, Option-cases, Bool-cases, if◌then◌else◌, length, ◌↔◌,
}
use host_monitoring_client.Common.Text.{Text, text_eq, byte_len}
use host_monitoring_client.Transport.{SendError, Sending, accepted, failed, is_permanent}
use host_monitoring_client.Transport.Safety.{discards}
use host_monitoring_client.Transport.Send.{ReportFormat}
use host_monitoring_client.Spool.{
  Record, report_of, Inner, InnerLaws, Contract, PendingReport, Found, spool_failed, queue_empty,
  oldest_report, EnqueueEnd, stored, unencodable, over_limit, spool_refused, pending_count, enqueue,
  acknowledge,
}
use host_monitoring_client.Spool.Oldest.{Searched, oldest-Ends}
use host_monitoring_client.Spool.Kept.{Kept, Searched-Kept, EnqueueSays, enqueue-Says}
use host_monitoring_client.Delivery.{
  is_delivered, OnceResult, stopped, spool_unavailable, body_over_limit, OnceRun, Surroundings,
  FlushOutcome, drained, batch_complete, flush_failed, enqueue_then, retain_once_report, after_send,
  after_search, after_enqueue, deliver_current, flush_stored, run_once, flush_broken,
  stored_pending, finished, shutdown, rejected,
}

nonempty : (k : ℕ) (rs : List Record) → (suc k ≡ 0) ↔ (rs ≡ []) → 0 < length rs
nonempty k [] h = ground (arith, h.1 refl)
nonempty k (r ∷ rs) h = omega arith

module _ {R Q Stamp : Type 0} (format : ReportFormat R) (contract : Contract)
    (inner : Inner Q Stamp) (laws : InnerLaws inner) (stamp : R → Stamp)
    (around : Surroundings R Q) where
  -- The server has accepted the report of that id as it was sent, or it was refused for good.
  abbrev pub Decided : R → OnceRun R Q → Type 0
  Decided current run =
      (report : R) × (body : Text) × (q : Q) × (result : Sending) × (run.sent
        ≡ some (report, body, q))
      × (around.send report body ≡ some result)
      × (text_eq (format.report_id report) (format.report_id current) ≡ true)
      × ((result ≡ accepted) ⊎ (discards result ≡ true))

  -- What was sent stood first in the queue when the sending began.
  abbrev pub Persisted : Option (R × Text × Q) → Type 0
  Persisted sent =
      (sent ≡ none)
      ⊎ ((report : R) × (q : Q) × (r : Record) × (later : List Record) × (sent
            ≡ some (report, r.payload, q))
          × (inner.pending q ≡ r ∷ later)
          × (report_of format contract r ≡ some report))

  abbrev pub Honest : R → OnceRun R Q → Type 0
  Honest current run =
      (is_delivered run.outcome ≡ false)
      ⊎ ((report : R) × (body : Text) × (q : Q) × (run.sent ≡ some (report, body, q))
          × (around.send report body ≡ some accepted)
          × (text_eq (format.report_id report) (format.report_id current) ≡ true))

  abbrev pub Safe : R → Text → OnceRun R Q → Type 0
  Safe current body run =
      (Kept inner laws body run.queue
        ⊎ (run.outcome ≡ stopped spool_unavailable)
        ⊎ ((run.outcome ≡ stopped body_over_limit) × (contract.max_body_bytes < byte_len body))
        ⊎ Decided current run)
      × Persisted run.sent
      × Honest current run

  abbrev pub Sure : R → Text → Option (OnceRun R Q) → Type 0
  Sure current body result = (run : OnceRun R Q) × (result ≡ some run) × Safe current body run

  rejection_undelivered :
      (acknowledged : Bool) (e : SendError)
      → is_delivered (if acknowledged then stopped (rejected e) else stopped spool_unavailable)
        ≡ false
  rejection_undelivered true e = refl
  rejection_undelivered false e = refl

  -- The search's report stands first in the queue.
  abbrev First : PendingReport R → Q → Type 0
  First p q =
      (r : Record) × (later : List Record) × (inner.pending q ≡ r ∷ later)
      × (p.body ≡ r.payload)
      × (report_of format contract r ≡ some p.report)

  First-Persisted :
      (p : PendingReport R) (q : Q) → First p q → Persisted (some (p.report, p.body, q))
  First-Persisted p q (r, later, a, b, c) =
      inr (p.report, q, r, later, ap (λ t. some (p.report, t, q)) b, a, c)

  after_send-Safe :
      (current : R) (body : Text) (p : PendingReport R) (q : Q) (s : Option Sending)
      → text_eq (format.report_id p.report) (format.report_id current) ≡ true
      → around.send p.report p.body ≡ s
      → First p q
      → Kept inner laws body q
      → Safe current body (after_send format contract inner stamp around p q s)
  after_send-Safe current body p q none same sent first kept =
      (inl kept, First-Persisted p q first, inl refl)
  after_send-Safe current body p q (some accepted) same sent first kept = (
    inr (inr (inr (p.report, p.body, q, accepted, refl, sent, same, inl refl))),
    First-Persisted p q first,
    inr (p.report, p.body, q, refl, sent, same),
  )
  after_send-Safe current body p q (some (failed e)) same sent first kept =
      elim (Bool-cases (is_permanent e)) [
        | inl d ↦ rw d (
          inr (inr (inr (p.report, p.body, q, failed e, refl, sent, same, inr d))),
          First-Persisted p q first,
          inl (rejection_undelivered ((acknowledge format contract inner p q).0) e),
        )
        | inr d ↦ rw d (inl kept, First-Persisted p q first, inl refl)
      ]

  First-found :
      (q q' : Q) (p : PendingReport R)
      → Searched format contract inner laws q (oldest_report p, q')
      → First p q'
  First-found q q' p (skipped, rest, a, b, c, d, (r, later, e, f, g, v)) = (r, later, b ∙ e, g, v)

  after_search-Sure :
      (current : R) (body : Text) (q : Q) (found : Found R) (q' : Q)
      → Searched format contract inner laws q (found, q')
      → Kept inner laws body q
      → Sure current body
          (after_search format contract inner stamp around current (some (found, q')))
  after_search-Sure current body q spool_failed q' s kept =
      (_, refl, (inr (inl refl), inl refl, inl refl))
  after_search-Sure current body q queue_empty q' s kept = (
    _,
    refl,
    (
      inl (Searched-Kept inner laws format contract body q q' queue_empty s kept),
      inl refl,
      inl refl,
    ),
  )
  after_search-Sure current body q (oldest_report p) q' s kept =
      let still = Searched-Kept inner laws format contract body q q' (oldest_report p) s kept in
      elim (Bool-cases (text_eq (format.report_id p.report) (format.report_id current))) [
        | inl same ↦ rw same (
          _,
          refl,
          after_send-Safe current body p q' (around.send p.report p.body) same refl
              (First-found q q' p s) still,
        )
        | inr other ↦ rw other (_, refl, (inl still, inl refl, inl refl))
      ]

  after_enqueue-Sure :
      (current : R) (body : Text) (put : EnqueueEnd × Q)
      → EnqueueSays inner laws format contract body put.1 put.0
      → Sure current body (after_enqueue format contract inner stamp around current put)
  after_enqueue-Sure current body (unencodable, q) says = absurd says
  after_enqueue-Sure current body (over_limit, q) says =
      (_, refl, (inr (inr (inl (refl, says))), inl refl, inl refl))
  after_enqueue-Sure current body (spool_refused, q) says =
      (_, refl, (inr (inl refl), inl refl, inl refl))
  after_enqueue-Sure current body (stored, q) says =
      let n = suc (length (inner.pending q)) in
      let ((found, q₂), ends, searched) =
        oldest-Ends format contract inner laws n q (omega arith) in
      rw ends (after_search-Sure current body q found q₂ searched (inl says))

  enqueue_then-Safe :
      (current : R) (body : Text) (outcome : OnceResult) (put : EnqueueEnd × Q)
      → is_delivered outcome ≡ false
      → EnqueueSays inner laws format contract body put.1 put.0
      → Safe current body (enqueue_then format contract inner stamp outcome put)
  enqueue_then-Safe current body outcome (unencodable, q) undelivered says = absurd says
  enqueue_then-Safe current body outcome (over_limit, q) undelivered says =
      (inr (inr (inl (refl, says))), inl refl, inl refl)
  enqueue_then-Safe current body outcome (spool_refused, q) undelivered says =
      (inr (inl refl), inl refl, inl refl)
  enqueue_then-Safe current body outcome (stored, q) undelivered says =
      (inl (inl says), inl refl, inl undelivered)

  enqueued-Safe :
      (current bounded : R) (body : Text) (q : Q) (outcome : OnceResult)
      → format.encode current ≡ some (bounded, body)
      → is_delivered outcome ≡ false
      → Safe current body (
          enqueue_then format contract inner stamp outcome
            (enqueue format contract inner stamp current q))
  enqueued-Safe current bounded body q outcome encoded undelivered =
      enqueue_then-Safe current body outcome (enqueue format contract inner stamp current q)
        undelivered (enqueue-Says inner laws format contract stamp q current bounded body encoded)

  deliver_current-Sure :
      (current bounded : R) (body : Text) (q : Q)
      → format.encode current ≡ some (bounded, body)
      → Sure current body (deliver_current format contract inner stamp around current q)
  unfolding deliver_current
  deliver_current-Sure current bounded body q encoded =
      after_enqueue-Sure current body (enqueue format contract inner stamp current q)
        (enqueue-Says inner laws format contract stamp q current bounded body encoded)

  retain_once_report-Safe :
      (current bounded : R) (body : Text) (q : Q)
      → format.encode current ≡ some (bounded, body)
      → Safe current body (retain_once_report format contract inner stamp current q)
  unfolding retain_once_report
  retain_once_report-Safe current bounded body q encoded =
      enqueued-Safe current bounded body q (finished shutdown) encoded refl

  abbrev advances : FlushOutcome → Bool
  advances (flush_failed e) = false
  advances outcome = true

  -- A pass of xcsc's `deliver_batch` that reports no failure takes records out of the queue.
  abbrev pub FlushProgress : Type 0
  FlushProgress =
      (q : Q) (outcome : FlushOutcome) (q' : Q)
      → around.flush_spool q ≡ (some (some outcome), q')
      → advances outcome ≡ true
      → 0 < length (inner.pending q)
      → length (inner.pending q') < length (inner.pending q)

  module _ (progress : FlushProgress) (current bounded : R) (body : Text)
      (encoded : format.encode current ≡ some (bounded, body)) where
    after_flush-Sure :
        (n : ℕ) (q : Q)
        → 0 < length (inner.pending q)
        → (flush : Option (Option FlushOutcome) × Q) → around.flush_spool q ≡ flush
        → ((q' : Q)
            → length (inner.pending q') < length (inner.pending q)
            → Sure current body (flush_stored format contract inner stamp around n current q'))
        → Sure current body (elim (flush.0) [
          | none ↦ some (retain_once_report format contract inner stamp current (flush.1))
          | some none ↦ some (
              enqueue_then format contract inner stamp
                (stopped flush_broken)
                (enqueue format contract inner stamp current (flush.1)))
          | some (some (flush_failed e)) ↦ some (
              enqueue_then format contract inner stamp
                (stopped (stored_pending e))
                (enqueue format contract inner stamp current (flush.1)))
          | some (some drained) ↦
              flush_stored format contract inner stamp around n current (flush.1)
          | some (some batch_complete) ↦
              flush_stored format contract inner stamp around n current (flush.1)
        ])
    after_flush-Sure n q h (none, q') e next =
        (_, refl, retain_once_report-Safe current bounded body q' encoded)
    after_flush-Sure n q h (some none, q') e next =
        (_, refl, enqueued-Safe current bounded body q' (stopped flush_broken) encoded refl)
    after_flush-Sure n q h (some (some (flush_failed f)), q') e next =
        (_, refl, enqueued-Safe current bounded body q' (stopped (stored_pending f)) encoded refl)
    after_flush-Sure n q h (some (some drained), q') e next =
        next q' (progress q drained q' e refl h)
    after_flush-Sure n q h (some (some batch_complete), q') e next =
        next q' (progress q batch_complete q' e refl h)

    flush_stored-Sure :
        (n : ℕ) (q : Q)
        → length (inner.pending q) < n
        → Sure current body (flush_stored format contract inner stamp around n current q)
    unfolding flush_stored pending_count
    flush_stored-Sure zero q h = ground arith
    flush_stored-Sure (suc n) q h = elim (Option-cases (inner.usage q)) [
      | inl e ↦ rw (flush_stored, e) (_, refl, (inr (inl refl), inl refl, inl refl))
      | inr (zero, e) ↦ rw (flush_stored, e) (deliver_current-Sure current bounded body q encoded)
      | inr (suc k, e) ↦
          rw (flush_stored, e)
            (after_flush-Sure n q (nonempty k (inner.pending q) (laws.usage_pending q (suc k) e))
              (around.flush_spool q) refl
              (λ q' less. flush_stored-Sure n q' (omega (arith, h, less))))
    ]

  -- With fuel over the number of stored reports and a delivery pass that makes progress, the command comes to
  -- an end. Then the body of the current sample is in the spool, pending or isolated, or the spool itself
  -- failed, or the body is over the size limit and the command says so, or the sending of that report has
  -- ended with an acceptance or with a refusal for good. What was sent, if anything, stood first in the
  -- spool before, and the command says that it delivered only if the sending was accepted.
  pub run_once-Safe :
      FlushProgress
      → (n : ℕ) (q : Q) (count : ℕ) (bounded : R) (body : Text) → inner.usage q ≡ some count
      → format.encode (around.collect count) ≡ some (bounded, body)
      → length (inner.pending q) < n
      → (run : OnceRun R Q) × (run_once format contract inner stamp around n q ≡ some run)
        × Safe (around.collect count) body run
  unfolding run_once pending_count
  run_once-Safe progress n q count bounded body usage encoded h =
      rw (run_once, usage)
        (flush_stored-Sure progress (around.collect count) bounded body encoded n q h)
