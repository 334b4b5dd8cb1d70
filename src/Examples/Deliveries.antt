-- ===== src/Examples/Deliveries.antt =====
-- A spool that can be run, and the theorems on the delivery at concrete inputs.
use host_monitoring_client.Common.{
  ℕ, suc, ◌≡◌, refl, sym, ap, arith, ◌<◌, ◌≤◌, ◌⊎◌, ◌↔◌, Bool, true, false, Option, none, some,
  List, [], ◌∷◌, ◌++◌, length,
}
use mathlib.Core.List.{append-nil}
use host_monitoring_client.Common.Text.{Text, codes}
use host_monitoring_client.Transport.{accepted}
use host_monitoring_client.Spool.{
  host_report_contract, Record, Inner, InnerLaws, Contract, oldest, Unchanged, Isolated,
}
use host_monitoring_client.Spool.Oldest.{Ends, oldest-Ends}
use host_monitoring_client.Delivery.{OnceRun, Surroundings, drained, run_once, schedule_next}
use host_monitoring_client.Delivery.Once.{Safe, FlushProgress, run_once-Safe}
use host_monitoring_client.Delivery.Outcomes.{schedule_next_bounds}
use host_monitoring_client.Delivery.Composed.{Meeting, surroundings, Told, run_once-Told}
use host_monitoring_client.Examples.Answers.{texts, wire, reporter, acknowledges}
use host_monitoring_client.Examples.Bench.{bench}

-- The records in the queue, the isolated ones, and the next record id.
abbrev Queue : Type 0
Queue = List Record × List Record × ℕ

abbrev first : List Record → Option Record
first [] = none
first (r ∷ rs) = some r

abbrev isolate_first : Queue → Bool × Queue
isolate_first ([], isolated, n) = (false, ([], isolated, n))
isolate_first (r ∷ rs, isolated, n) = (true, (rs, isolated ++ (r ∷ []), n))

abbrev record_of : ℕ → Text → Text → Record
record_of n contract payload = record { record_id = n; contract_id = contract; payload = payload }

abbrev queue : Inner Queue ℕ
queue = record {
  next = λ q. some (first (q.0));
  ack = λ id q. isolate_first q;
  quarantine = λ id reason q. isolate_first q;
  enqueue = λ contract stamp payload q.
      (true, (q.0 ++ (record_of (q.2) contract payload ∷ []), q.1, suc (q.2)));
  usage = λ q. some (length (q.0));
  pending = λ q. q.0;
  isolated = λ q. q.1;
}

queue-next_empty : (q : Queue) → queue.next q ≡ some none → queue.pending q ≡ []
queue-next_empty ([], isolated, n) h = refl
queue-next_empty (r ∷ rs, isolated, n) h = ground arith

queue-next_oldest :
    (q : Queue) (r : Record)
    → queue.next q ≡ some (some r)
    → (rest : List Record) × (queue.pending q ≡ r ∷ rest)
queue-next_oldest ([], isolated, n) r h = ground arith
queue-next_oldest (s ∷ rs, isolated, n) r h = (rs, ap (λ t. t ∷ rs) (cc))

queue-isolates :
    (q : Queue) (r : Record) (rest : List Record) (q' : Queue)
    → queue.pending q ≡ r ∷ rest
    → isolate_first q ≡ (true, q')
    → Isolated queue r rest q q'
queue-isolates ([], isolated, n) r rest q' h e = ground arith
queue-isolates (s ∷ rs, isolated, n) r rest q' h e = (cc, cc)

queue-failed :
    (q : Queue) (r : Record) (rest : List Record) (q' : Queue)
    → queue.pending q ≡ r ∷ rest
    → isolate_first q ≡ (false, q')
    → Unchanged queue q q' ⊎ Isolated queue r rest q q'
queue-failed ([], isolated, n) r rest q' h e = ground arith
queue-failed (s ∷ rs, isolated, n) r rest q' h e = ground arith

length_zero : (rs : List Record) (n : ℕ) → some (length rs) ≡ some n → (n ≡ 0) ↔ (rs ≡ [])
length_zero [] n h = (λ e. refl, λ e. ground arith)
length_zero (r ∷ rs) n h = (λ e. ground arith, λ e. ground arith)

queue_laws : InnerLaws queue
queue_laws = record {
  next_empty = queue-next_empty;
  next_oldest = queue-next_oldest;
  quarantine_done = λ q r rest reason q' h e. queue-isolates q r rest q' h e;
  quarantine_failed = λ q r rest reason q' h e. queue-failed q r rest q' h e;
  enqueued = λ q contract stamp payload q' e.
      (q.0, [], q.2, sym (append-nil (q.0)), sym (ap (λ t. (t.1).0) e), sym (ap (λ t. (t.1).1) e));
  usage_pending = λ q n h. length_zero (q.0) n h;
}

abbrev current : Contract
current = record { schema_version = 1; version_of = λ t. none; max_body_bytes = 1000 }

-- A record of another contract before one of this client.
abbrev mixed : Queue
mixed = (
  record_of 1 (codes "other") (codes "old")
      ∷ record_of 2 (host_report_contract) (codes "report")
      ∷ [],
  [],
  3,
)

oldest-Ends_example : Ends texts current queue queue_laws mixed (oldest texts current queue 3 mixed)
oldest-Ends_example = oldest-Ends texts current queue queue_laws 3 mixed (omega arith)

-- The stored reports go out in one pass, and the server accepts.
abbrev around : Surroundings Text Queue
around = record {
  collect = λ n. codes "sample";
  flush_spool = λ q. (some (some drained), ([], q.1, q.2));
  send = λ r b. some accepted;
  send_otlp = λ r. some true;
}

around-FlushProgress : FlushProgress texts current queue queue_laws (λ r. 0) around
around-FlushProgress q outcome q' e advances some_pending =
    let cleared : length (q'.0) ≡ 0 = ap (λ t. length ((t.1).0)) (sym e) in
    omega (arith, cleared, some_pending)

run_once-Safe_example :
    (run : OnceRun Text Queue) × (run_once texts current queue (λ r. 0) around 3 mixed ≡ some run)
    × Safe texts current queue queue_laws (λ r. 0) around (codes "sample") (codes "sample") run
run_once-Safe_example =
    run_once-Safe texts current queue queue_laws (λ r. 0) around around-FlushProgress 3 mixed 2
      (codes "sample") (codes "sample") refl refl (omega arith)

abbrev now : ℕ
now = 25

schedule_next_bounds_example :
    (now < schedule_next 10 10 now)
    × (20 ≤ schedule_next 10 10 now)
    × ((20 ≤ now) ⊎ (schedule_next 10 10 now ≡ 20))
    × ((schedule_next 10 10 now ≡ 20) ⊎ (schedule_next 10 10 now ≡ 35))
schedule_next_bounds_example = schedule_next_bounds 10 10 now (omega arith)

-- The same command with the report server that acknowledges, and no shutdown.
abbrev meeting : Meeting Text Queue
meeting = record {
  collect = λ n. codes "sample";
  flush_spool = λ q. (some (some drained), ([], q.1, q.2));
  shutdown_first = λ report. false;
  send_otlp = λ r. some true;
}

abbrev met : Surroundings Text Queue
met = surroundings bench texts wire reporter acknowledges 0 meeting

met-FlushProgress : FlushProgress texts current queue queue_laws (λ r. 0) met
met-FlushProgress q outcome q' e advances some_pending =
    let cleared : length (q'.0) ≡ 0 = ap (λ t. length ((t.1).0)) (sym e) in
    omega (arith, cleared, some_pending)

run_once-Told_example :
    (run : OnceRun Text Queue) × (run_once texts current queue (λ r. 0) met 3 mixed ≡ some run)
    × Told bench texts wire reporter acknowledges 0 meeting (codes "sample") run
run_once-Told_example =
    run_once-Told bench texts wire reporter acknowledges 0 meeting current queue queue_laws (λ r. 0)
      met-FlushProgress 3 mixed 2 (codes "sample") (codes "sample") refl refl (omega arith)
