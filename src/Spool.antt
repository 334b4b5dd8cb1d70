-- ===== src/Spool.antt =====
-- src/spool.rs: the queue of the reports that await their delivery.
pub mod Oldest
pub mod Kept
use host_monitoring_client.Common.{
  ℕ, zero, suc, ◌≡◌, Bool, true, false, ◌&&◌, not, Option, none, some, List, [], ◌∷◌, ◌++◌, ◌⊎◌,
  ◌==◌, ltb, ◌↔◌, if◌then◌else◌,
}
use host_monitoring_client.Common.Text.{Text, codes, text_eq, byte_len}
use host_monitoring_client.Transport.Send.{ReportFormat}

pub data QuarantineReason : Type 0 where
  corrupt identity_mismatch : QuarantineReason

-- A record of xcsc's spool.
pub record Record : Type 0 where
  pub record_id : ℕ
  pub contract_id : Text
  pub payload : Text

-- xcsc's spool over its state Q. An operation that fails can have done its work or not.
pub record Inner (Q Stamp : Type 0) : Type 0 where
  pub next : Q → Option (Option Record)
  pub ack : ℕ → Q → Bool × Q
  pub quarantine : ℕ → QuarantineReason → Q → Bool × Q
  pub enqueue : Text → Stamp → Text → Q → Bool × Q
  pub usage : Q → Option ℕ
  pub pending : Q → List Record
  pub isolated : Q → List Record

abbrev pub Unchanged : {Q Stamp : Type 0} → Inner Q Stamp → Q → Q → Type 0
Unchanged inner q q' = (inner.pending q' ≡ inner.pending q) × (inner.isolated q' ≡ inner.isolated q)

-- The oldest record has left the queue for the isolated ones.
abbrev pub Isolated : {Q Stamp : Type 0} → Inner Q Stamp → Record → List Record → Q → Q → Type 0
Isolated inner r rest q q' =
    (inner.pending q' ≡ rest) × (inner.isolated q' ≡ inner.isolated q ++ (r ∷ []))

-- What the client relies on: the oldest record comes first, only the record that is named leaves the queue,
-- and a new one is put somewhere into it.
pub record InnerLaws {Q Stamp : Type 0} (inner : Inner Q Stamp) : Type 0 where
  pub next_empty : (q : Q) → inner.next q ≡ some none → inner.pending q ≡ []
  pub next_oldest :
      (q : Q) (r : Record)
      → inner.next q ≡ some (some r)
      → (rest : List Record) × (inner.pending q ≡ r ∷ rest)
  pub quarantine_done :
      (q : Q) (r : Record) (rest : List Record) (reason : QuarantineReason) (q' : Q)
      → inner.pending q ≡ r ∷ rest
      → inner.quarantine r.record_id reason q ≡ (true, q')
      → Isolated inner r rest q q'
  pub quarantine_failed :
      (q : Q) (r : Record) (rest : List Record) (reason : QuarantineReason) (q' : Q)
      → inner.pending q ≡ r ∷ rest
      → inner.quarantine r.record_id reason q ≡ (false, q')
      → Unchanged inner q q' ⊎ Isolated inner r rest q q'
  pub enqueued :
      (q : Q) (contract : Text) (stamp : Stamp) (payload : Text) (q' : Q)
      → inner.enqueue contract stamp payload q ≡ (true, q')
      → (before after : List Record) × (id : ℕ) × (inner.pending q ≡ before ++ after)
        × (inner.pending q'
            ≡ before
              ++ (record { record_id = id; contract_id = contract; payload = payload } ∷ after))
        × (inner.isolated q' ≡ inner.isolated q)
  pub usage_pending : (q : Q) (n : ℕ) → inner.usage q ≡ some n → (n ≡ 0) ↔ (inner.pending q ≡ [])

-- How an enqueueing ends: stored, or at the encoding, at `BoundedBytes::new` or in the spool itself.
pub data EnqueueEnd : Type 0 where
  stored unencodable over_limit spool_refused : EnqueueEnd

abbrev pub spooled : {Q : Type 0} → Bool × Q → EnqueueEnd × Q
spooled (true, q) = (stored, q)
spooled (false, q) = (spool_refused, q)

-- `PendingReport`.
pub record PendingReport (R : Type 0) : Type 0 where
  pub record_id : ℕ
  pub report : R
  pub body : Text

abbrev pub pending_of : {R : Type 0} → Record → R → PendingReport R
pending_of r report = record { record_id = r.record_id; report = report; body = r.payload }

-- `CLIENT_REPORT_SCHEMA_VERSION`, the version that a JSON payload names, and the
-- limit on a payload.
pub record Contract : Type 0 where
  pub schema_version : ℕ
  pub version_of : Text → Option ℕ
  pub max_body_bytes : ℕ

-- `HOST_REPORT_CONTRACT` of src/client_identity.rs.
abbrev pub host_report_contract : Text
host_report_contract = codes "xsos.client-report.current"

-- How the search for the oldest report ended.
pub data Found (R : Type 0) : Type 0 where
  spool_failed queue_empty : Found R
  oldest_report : PendingReport R → Found R

module _ {R : Type 0} (format : ReportFormat R) (contract : Contract) where
  abbrev other_version : Option ℕ → Bool
  other_version none = false
  other_version (some v) = not (v == contract.schema_version)

  abbrev canonical_report : R → Option R → Option R
  canonical_report report none = none
  canonical_report report (some canonical) =
      if format.equal canonical report then some report else none

  abbrev decoded_report : Option R → Option R
  decoded_report none = none
  decoded_report (some report) = canonical_report report (format.canonical report)

  -- The report of a record, if it is of the current contract and schema, well formed and canonical.
  unfoldable pub report_of : Record → Option R
  report_of r =
      if not (text_eq r.contract_id host_report_contract)
      then none
      else if other_version (contract.version_of r.payload)
      then none
      else decoded_report (format.decode r.payload)

  module _ {Q Stamp : Type 0} (inner : Inner Q Stamp) where
    -- `pending_count`.
    unfoldable pub pending_count : Q → Option ℕ
    pending_count q = inner.usage q

    unfoldable pub acknowledge : PendingReport R → Q → Bool × Q
    acknowledge pending q = inner.ack pending.record_id q

    unfoldable pub quarantine : PendingReport R → QuarantineReason → Q → Bool × Q
    quarantine pending reason q = inner.quarantine pending.record_id reason q

    -- The loop of `oldest` on fuel: none when the fuel is used up.
    unfoldable pub oldest : ℕ → Q → Option (Found R × Q)
    oldest zero q = none
    oldest (suc n) q = elim (inner.next q) [
      | none ↦ some (spool_failed, q)
      | some none ↦ some (queue_empty, q)
      | some (some r) ↦ elim (report_of r) [
        | some report ↦ some (oldest_report (pending_of r report), q)
        | none ↦
            let after = inner.quarantine r.record_id corrupt q in
            elim (after.0) [ true ↦ oldest n (after.1) | false ↦ some (spool_failed, after.1) ]
      ]
    ]

    module _ (stamp : R → Stamp) where
      -- `ContractId::new` takes the client's contract identifier, a constant.
      abbrev pub bounded_enqueue : Q → Option (R × Text) → EnqueueEnd × Q
      bounded_enqueue q none = (unencodable, q)
      bounded_enqueue q (some (bounded, bytes)) =
          if ltb contract.max_body_bytes (byte_len bytes)
          then (over_limit, q)
          else spooled (inner.enqueue host_report_contract (stamp bounded) bytes q)

      unfoldable pub enqueue : R → Q → EnqueueEnd × Q
      enqueue report q = bounded_enqueue q (format.encode report)
