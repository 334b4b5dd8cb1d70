-- ===== src/Spool/Kept.antt =====
-- Which bodies the spool keeps, pending or isolated.
use host_monitoring_client.Common.{
  ◌≡◌, refl, sym, subst, arith, Bool, true, false, ◌<◌, ltb, Bool-cases, some, List, [], ◌∷◌, ◌++◌,
  ◌⊎◌, inl, inr,
}
use host_monitoring_client.Common.Text.{Text, byte_len}
use host_monitoring_client.Transport.Send.{ReportFormat}
use host_monitoring_client.Spool.{
  Record, Inner, InnerLaws, Contract, Found, EnqueueEnd, stored, unencodable, over_limit,
  spool_refused, spooled, enqueue, host_report_contract,
}
use host_monitoring_client.Spool.Oldest.{Searched}

abbrev pub Holds : Text → List Record → Type 0
Holds body [] = ⊥
Holds body (r ∷ rs) = (r.payload ≡ body) ⊎ Holds body rs

pub Holds-cases :
    (body : Text) (xs ys : List Record) → Holds body (xs ++ ys) → Holds body xs ⊎ Holds body ys
Holds-cases body [] ys h = inr h
Holds-cases body (x ∷ xs) ys (inl e) = inl (inl e)
Holds-cases body (x ∷ xs) ys (inr h) = elim (Holds-cases body xs ys h) [
  | inl l ↦ inl (inr l)
  | inr r ↦ inr r
]

pub Holds-left : (body : Text) (xs ys : List Record) → Holds body xs → Holds body (xs ++ ys)
Holds-left body [] ys h = elim h [ ]
Holds-left body (x ∷ xs) ys (inl e) = inl e
Holds-left body (x ∷ xs) ys (inr h) = inr (Holds-left body xs ys h)

pub Holds-right : (body : Text) (xs ys : List Record) → Holds body ys → Holds body (xs ++ ys)
Holds-right body [] ys h = h
Holds-right body (x ∷ xs) ys h = inr (Holds-right body xs ys h)

module _ {Q Stamp : Type 0} (inner : Inner Q Stamp) (laws : InnerLaws inner) where
  -- The spool still has the body, in the queue or among the isolated records.
  abbrev pub Kept : Text → Q → Type 0
  Kept body q = Holds body (inner.pending q) ⊎ Holds body (inner.isolated q)

  module _ {R : Type 0} (format : ReportFormat R) (contract : Contract) where
    pub Searched-Kept :
        (body : Text) (q q' : Q) (found : Found R)
        → Searched format contract inner laws q (found, q')
        → Kept body q
        → Kept body q'
    Searched-Kept body q q' found (skipped, rest, a, b, c, d, e) (inl h) =
        elim (Holds-cases body skipped rest (subst (λ t. Holds body t) a h)) [
          | inl l ↦
              inr
                (subst (λ t. Holds body t) (sym c) (Holds-right body (inner.isolated q) skipped l))
          | inr r ↦ inl (subst (λ t. Holds body t) (sym b) r)
        ]
    Searched-Kept body q q' found (skipped, rest, a, b, c, d, e) (inr h) =
        inr (subst (λ t. Holds body t) (sym c) (Holds-left body (inner.isolated q) skipped h))

    -- What an enqueueing of a report that can be encoded says, however it ends.
    abbrev pub EnqueueSays : Text → Q → EnqueueEnd → Type 0
    EnqueueSays body q' stored = Holds body (inner.pending q')
    EnqueueSays body q' unencodable = ⊥
    EnqueueSays body q' over_limit = contract.max_body_bytes < byte_len body
    EnqueueSays body q' spool_refused = Unit

    spooled-Says :
        (stamp : Stamp) (q : Q) (body : Text) (put : Bool × Q)
        → inner.enqueue host_report_contract stamp body q ≡ put
        → EnqueueSays body ((spooled put).1) ((spooled put).0)
    spooled-Says stamp q body (false, q') h = tt
    spooled-Says stamp q body (true, q') h =
        let (before, later, id, a, b, c) = laws.enqueued q host_report_contract stamp body q' h in
        subst (λ t. Holds body t) (sym b) (Holds-right body before _ (inl refl))

    pub enqueue-Says :
        (stamp : R → Stamp) (q : Q) (report bounded : R) (body : Text)
        → format.encode report ≡ some (bounded, body)
        → let put = enqueue format contract inner stamp report q in EnqueueSays body put.1 put.0
    unfolding enqueue
    enqueue-Says stamp q report bounded body encoded =
        elim (Bool-cases (ltb contract.max_body_bytes (byte_len body))) [
          | inl over ↦ rw (encoded, over) (ground arith)
          | inr fits ↦
              rw (encoded, fits)
                (spooled-Says (stamp bounded) q body
                  (inner.enqueue host_report_contract (stamp bounded) body q) refl)
        ]
