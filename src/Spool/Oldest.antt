-- ===== src/Spool/Oldest.antt =====
-- The search for the oldest report: it ends, skips the invalid records alone and loses none.
use host_monitoring_client.Common.{
  ℕ, zero, suc, ◌≡◌, refl, sym, ap, ◌∙◌, arith, ◌<◌, Bool, true, false, Option, none, some, List,
  [], ◌∷◌, ◌++◌, ◌⊎◌, inl, inr, Option-cases, length,
}
use mathlib.Core.List.{append_assoc, append-nil}
use host_monitoring_client.Transport.Send.{ReportFormat}
use host_monitoring_client.Spool.{
  Record, Inner, InnerLaws, Unchanged, Isolated, Contract, Found, spool_failed, queue_empty,
  oldest_report, corrupt, report_of, oldest, pending_of,
}

module _ {R : Type 0} (format : ReportFormat R) (contract : Contract) where
  -- Records that hold no report of this client.
  abbrev pub Invalid : List Record → Type 0
  Invalid [] = Unit
  Invalid (r ∷ rs) = (report_of format contract r ≡ none) × Invalid rs

  -- What the end of the search says of the records that are left.
  abbrev pub Ended : Found R → List Record → Type 0
  Ended spool_failed rest = Unit
  Ended queue_empty rest = rest ≡ []
  Ended (oldest_report p) rest =
      (r : Record) × (later : List Record) × (rest ≡ r ∷ later)
      × (p.record_id ≡ r.record_id)
      × (p.body ≡ r.payload)
      × (report_of format contract r ≡ some p.report)

  module _ {Q Stamp : Type 0} (inner : Inner Q Stamp) (laws : InnerLaws inner) where
    abbrev pub Searched : Q → Found R × Q → Type 0
    Searched q (found, q') =
        (skipped rest : List Record) × (inner.pending q ≡ skipped ++ rest)
        × (inner.pending q' ≡ rest)
        × (inner.isolated q' ≡ inner.isolated q ++ skipped)
        × Invalid skipped
        × Ended found rest

    Searched-skip :
        (q q₁ : Q) (r : Record) (later : List Record)
        → inner.pending q ≡ r ∷ later
        → report_of format contract r ≡ none
        → Isolated inner r later q q₁
        → (o : Found R × Q) → Searched q₁ o
        → Searched q o
    Searched-skip q q₁ r later p i (p₁, i₁) (found, q') (skipped, rest, a, b, c, d, e) = (
      r ∷ skipped,
      rest,
      p ∙ ap (λ t. r ∷ t) (sym p₁ ∙ a),
      b,
      c ∙ ap (λ t. t ++ skipped) i₁ ∙ append_assoc (inner.isolated q) (r ∷ []) skipped,
      (i, d),
      e,
    )

    Searched-stop :
        (q : Q) (found : Found R) → Ended found (inner.pending q) → Searched q (found, q)
    Searched-stop q found e =
        ([], inner.pending q, refl, refl, sym (append-nil (inner.isolated q)), tt, e)

    -- A record that could not be quarantined is still there, or is among the isolated ones.
    Searched-failed :
        (q q₁ : Q) (r : Record) (later : List Record)
        → inner.pending q ≡ r ∷ later
        → report_of format contract r ≡ none
        → Unchanged inner q q₁ ⊎ Isolated inner r later q q₁
        → Searched q (spool_failed, q₁)
    Searched-failed q q₁ r later p i (inl (p₁, i₁)) =
        ([], inner.pending q, refl, p₁, i₁ ∙ sym (append-nil (inner.isolated q)), tt, tt)
    Searched-failed q q₁ r later p i (inr (p₁, i₁)) = (r ∷ [], later, p, p₁, i₁, (i, tt), tt)

    -- What holds once enough fuel is given.
    abbrev pub Ends : Q → Option (Found R × Q) → Type 0
    Ends q result = (o : Found R × Q) × (result ≡ some o) × Searched q o

    Ends-skip :
        (n : ℕ) (q : Q) (r : Record) (later : List Record)
        → inner.pending q ≡ r ∷ later
        → report_of format contract r ≡ none
        → (after : Bool × Q) → inner.quarantine r.record_id corrupt q ≡ after
        → ((q₁ : Q) → Isolated inner r later q q₁ → Ends q₁ (oldest format contract inner n q₁))
        → Ends q (elim (after.0) [
          | true ↦ oldest format contract inner n (after.1)
          | false ↦ some (spool_failed, after.1)
        ])
    Ends-skip n q r later p i (true, q₁) e next =
        let done = laws.quarantine_done q r later corrupt q₁ p e in
        let (o, ends, searched) = next q₁ done in
        (o, ends, Searched-skip q q₁ r later p i done o searched)
    Ends-skip n q r later p i (false, q₁) e next = (
      (spool_failed, q₁),
      refl,
      Searched-failed q q₁ r later p i (laws.quarantine_failed q r later corrupt q₁ p e),
    )

    -- The search for the oldest report comes to an end with fuel over the number of pending records. It
    -- isolates, in their order, records that hold no report of this client and no others; then it returns the
    -- first record that holds one, or finds the queue empty, or stops at a failure of the spool.
    pub oldest-Ends :
        (n : ℕ) (q : Q) → length (inner.pending q) < n → Ends q (oldest format contract inner n q)
    unfolding oldest
    oldest-Ends zero q h = ground arith
    oldest-Ends (suc n) q h = elim (Option-cases (inner.next q)) [
      | inl e ↦ rw (oldest, e) ((spool_failed, q), refl, Searched-stop q spool_failed tt)
      | inr (none, e) ↦
          rw (oldest, e) ((queue_empty, q), refl, Searched-stop q queue_empty (laws.next_empty q e))
      | inr (some r, e) ↦
          let (later, p) = laws.next_oldest q r e in
          elim (Option-cases (report_of format contract r)) [
            | inl i ↦
                rw (oldest, e, i)
                  (Ends-skip n q r later p i (inner.quarantine r.record_id corrupt q) refl
                    (λ q₁ done. oldest-Ends n q₁ (rw (done.0) (omega (arith, h, ap length p)))))
            | inr (report, v) ↦
                rw (oldest, e, v)
                  (
                    (oldest_report (pending_of r report), q),
                    refl,
                    Searched-stop q (oldest_report (pending_of r report))
                        (r, later, p, refl, refl, v),
                  )
          ]
    ]
