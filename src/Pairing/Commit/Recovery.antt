-- ===== src/Pairing/Commit/Recovery.antt =====
-- Interrupted commits: src/pairing/commit_flow.rs, `recover_activating`.
use host_monitoring_client.Common.{
  ◌≡◌, refl, ap, subst, sym, ◌∙◌, ◌⊎◌, inl, inr, Bool, true, ◌&&◌, Option, some, arith, leb, ◌==◌,
}
use host_monitoring_client.Common.Text.{Text, byte_len}
use host_monitoring_client.Error.{superseded}
use host_monitoring_client.Exec.{World, Result, ok, err, pure, throw, ◌>>=◌}
use host_monitoring_client.Exec.Runs.{
  Runs, Post, Runs-pure, Runs-throw, Runs-bind, Runs-mono, Runs-given, Runs-when, Runs-if, Clean,
}
use host_monitoring_client.StateFiles.{Disk, pairing, max_bytes}
use host_monitoring_client.StateStore.{begin}
use host_monitoring_client.StateStore.Laws.{
  At, begin-Runs, begin-Runs-Clean, created, created-present,
}
use host_monitoring_client.Pairing.State.{
  Time, StoredPairingState, Activating, Active, PairingProgress, active_progress, active,
  activating,
}
use host_monitoring_client.Pairing.Platform.{Platform, PlatformLaws}
use host_monitoring_client.Pairing.Documents.{decode_state, load_state}
use host_monitoring_client.Pairing.Documents.Laws.{
  stored_state, load_state-Runs, load_state-Runs-Clean,
}
use host_monitoring_client.Pairing.Credentials.{active_of_journal}
use host_monitoring_client.Pairing.Credentials.Recovery.{
  Agrees, Agrees-refl, Agrees-trans, IsCommitted, committed, committed-Agrees, committed-journal,
  finish_activating-Runs,
}
use host_monitoring_client.Pairing.Credentials.Clean.{
  IsStorable, progress, active_decoded, finish_activating-Runs-Clean,
}
use host_monitoring_client.Pairing.Commit.{recover_current, recover_activating}

module _ (x : Platform) (laws : PlatformLaws x) (a : Activating) where
  -- The journal `a` is on disk and can be loaded, in a directory that is there.
  pub record HasJournal (d : Disk) : Type 0 where
    pub text : Text
    pub journal_file : d.pairing_file ≡ some text
    pub journal_fits : leb (byte_len text) (max_bytes pairing) ≡ true
    pub journal_decoded : decode_state x text ≡ ok (activating a)
    pub journal_present : d.present ≡ true

  -- Any number of attempts to recover the journal, each of them interrupted anywhere or not at all.
  pub data Attempts (d : Disk) : Disk → Type 0 where
    no_attempt : Attempts d d
    attempt :
        {e f : Disk}
        → Attempts d e
        → (w : World) → w.disk ≡ e
        → f ≡ (recover_activating x (activating a) w).1.disk
        → Attempts d f

  -- Where the attempts can lead to.
  abbrev Outcome : Disk → Disk → Type 0
  Outcome d e = Agrees d e ⊎ IsCommitted x a d e

  Outcome-present : (d e : Disk) → HasJournal d → Outcome d e → e.present ≡ true
  unfolding committed
  Outcome-present d e j (inl h) = h.same_present ∙ j.journal_present
  Outcome-present d e j (inr (token, (t, u, h))) =
      ap (λ (e : Disk). e.present) h ∙ j.journal_present

  begin_again : (e : Disk) → e.present ≡ true → Runs (At e) begin (λ _. At e) (λ _. At e)
  begin_again e h =
      let same = created-present e h in
      Runs-mono (begin-Runs e) (λ w p. p) (λ _ w p. p ∙ same) (λ _ w p. either w p)
    where
      either : (w : World) → (At e w ⊎ At (created e) w) → At e w
      either w (inl p) = p
      either w (inr p) = p ∙ created-present e h

  stored_of_text :
      (e : Disk) (t : Text) (v : StoredPairingState)
      → e.pairing_file ≡ some t
      → decode_state x t ≡ ok v
      → stored_state x e ≡ some v
  stored_of_text e t v h k = rw h (rw k)

  -- The commit of a directory that agrees with `d` is a commit of `d`.
  transfer : (d e f : Disk) → Agrees d e → IsCommitted x a e f → IsCommitted x a d f
  transfer d e f h (token, (t, u, k)) = (token, (t, u, k ∙ committed-Agrees x a t u d e h))

  transfer_kept :
      (d e : Disk) (w : World)
      → Agrees d e
      → (Agrees e w.disk ⊎ IsCommitted x a e w.disk)
      → Outcome d w.disk
  transfer_kept d e w h (inl k) = inl (Agrees-trans h k)
  transfer_kept d e w h (inr k) = inr (transfer d e w.disk h k)

  abbrev same_request : Active → Bool
  same_request s = s.generation == a.generation && s.request_id == a.request_id

  abbrev ended : Active → PairingProgress
  ended s = active_progress s.generation s.request_id s.instance_id s.report_endpoint

  -- One more look at the journal, wherever the attempts before have led to.
  continue_from :
      (d e : Disk)
      → HasJournal d
      → Outcome d e
      → (o : Option StoredPairingState) → stored_state x e ≡ o
      → Runs (At e) (recover_current x a o) (λ _ w. Outcome d w.disk) (λ _ w. Outcome d w.disk)
  continue_from d e j (inl h) o r =
      let stored =
        stored_of_text e j.text (activating a) (h.same_journal ∙ j.journal_file)
          j.journal_decoded in
      rw (sym r ∙ stored) (
        Runs-if _ _ _
          (λ _.
            Runs-mono (finish_activating-Runs x a e stored a) (λ w p. p)
              (λ _ w p. inr (transfer d e w.disk h p)) (λ _ w p. transfer_kept d e w h p))
          (λ _. Runs-throw superseded (λ w p. inl (Agrees-trans h (Agrees-refl p)))))
  continue_from d e j (inr (token, (t, u, h))) o r =
      let file = ap (λ (e : Disk). e.pairing_file) h ∙ committed-journal x a t u d in
      let stored =
        stored_of_text e _ (active (active_of_journal a u)) file
          (active_decoded x laws a j.text u j.journal_decoded) in
      rw (sym r ∙ stored) (
        Runs-if (same_request (active_of_journal a u)) (pure (ended (active_of_journal a u)))
          (throw superseded)
          (λ _. Runs-pure (ended (active_of_journal a u)) (λ w p. inr (token, (t, u, p ∙ h))))
          (λ _. Runs-throw superseded (λ w p. inr (token, (t, u, p ∙ h)))))

  Outcome-step :
      (d e : Disk)
      → HasJournal d
      → Outcome d e
      → Runs
          (At e)
          (recover_activating x (activating a))
          (λ _ w. Outcome d w.disk)
          (λ _ w. Outcome d w.disk)
  unfolding recover_activating
  Outcome-step d e j o =
      let stays : (w : World) → At e w → Outcome d w.disk = λ w p. subst (Outcome d) (sym p) o in
      Runs-bind _ _
        (Runs-mono (begin_again e (Outcome-present d e j o)) (λ w p. p) (λ _ w p. p)
          (λ _ w p. stays w p))
        λ _.
          Runs-bind _ _
            (Runs-mono (load_state-Runs x e) (λ w p. p) (λ v w p. p) (λ _ w p. stays w p))
            λ v. Runs-when λ r. continue_from d e j o v r

  Post-outcome :
      (d : Disk) (r : Result PairingProgress × World)
      → Post (λ _ w. Outcome d w.disk) (λ _ w. Outcome d w.disk) r
      → Outcome d r.1.disk
  Post-outcome d (ok p, w) h = h
  Post-outcome d (err e, w) h = h

  -- However often and wherever the recovery of a journal that can be loaded is interrupted, the journal is
  -- still there and only files of the commit differ, or the whole commit has been made.
  pub Attempts-Outcome :
      (d e : Disk) → HasJournal d → Attempts d e → Agrees d e ⊎ IsCommitted x a d e
  Attempts-Outcome d e j no_attempt = inl (Agrees-refl refl)
  Attempts-Outcome d e j (attempt {e = m} before w at_m f) =
      let o = Attempts-Outcome d m j before in
      subst (Outcome d) (sym f)
        (Post-outcome d (recover_activating x (activating a) w) ((Outcome-step d m j o).at w at_m))

  -- Where the last attempt ends when no fault is ahead of it.
  abbrev pub Completed : Disk → PairingProgress → World → Type 0
  Completed d p w = (p ≡ progress a) × ((t : Time) × (u : Time) × (w.disk ≡ committed x a t u d))

  completes_from :
      IsStorable x a
      → (d e : Disk) → HasJournal d
      → Outcome d e
      → Runs (Clean e) (load_state x >>= recover_current x a) (Completed d) (λ _ _. ⊥)
  unfolding active_of_journal
  completes_from s d e j (inl h) =
      Runs-bind _ _
        (load_state-Runs-Clean x e j.text (activating a) (h.same_journal ∙ j.journal_file)
          j.journal_fits j.journal_decoded)
        λ o. Runs-given λ r.
          rw (r, same_key a)
            (Runs-mono
              (finish_activating-Runs-Clean x laws a s e j.text (h.same_journal ∙ j.journal_file)
                j.journal_fits j.journal_decoded)
              (λ w p. p)
              (λ p w q. (q.0, (q.1.0, q.1.1, q.1.2.0 ∙ committed-Agrees x a q.1.0 q.1.1 d e h)))
              (λ _ w p. p))
    where
      same_key :
          (a : Activating) → (a.generation == a.generation && a.request_id == a.request_id) ≡ true
      same_key a = ground arith
  completes_from s d e j (inr (token, (t, u, h))) =
      Runs-bind _ _
        (load_state-Runs-Clean x e _ (active (active_of_journal a u))
          (ap (λ (e : Disk). e.pairing_file) h ∙ committed-journal x a t u d) (s.active_readable u)
          (active_decoded x laws a j.text u j.journal_decoded))
        λ o. Runs-given λ r.
          rw (r, same_request_lem u)
            (Runs-pure (ended (active_of_journal a u)) (λ w p. (ended_lem u, (t, u, p.0 ∙ h))))
    where
      same_request_lem : (u : Time) → same_request (active_of_journal a u) ≡ true
      same_request_lem u = ground arith

      ended_lem : (u : Time) → ended (active_of_journal a u) ≡ progress a
      ended_lem u = refl

  completes-Runs :
      IsStorable x a
      → (d e : Disk) → HasJournal d
      → Outcome d e
      → Runs (Clean e) (recover_activating x (activating a)) (Completed d) (λ _ _. ⊥)
  unfolding recover_activating
  completes-Runs s d e j o =
      Runs-bind _ _ (begin-Runs-Clean e)
        λ _. rw (created-present e (Outcome-present d e j o)) (completes_from s d e j o)

  -- Take a journal on disk whose instance and request ids and report endpoint are valid, whose token has the
  -- current form and whose commit's files fit their budgets at every time. After any number of attempts to
  -- recover it, each interrupted anywhere, an attempt with no fault ahead succeeds: it reports the request
  -- of the journal, and every file is then that of the one whole commit.
  pub recovery_completes :
      IsStorable x a
      → (d e : Disk) → HasJournal d
      → Attempts d e
      → (w : World) → Clean e w
      → Post (Completed d) (λ _ _. ⊥) (recover_activating x (activating a) w)
  recovery_completes s d e j before w c =
      (completes-Runs s d e j (Attempts-Outcome d e j before)).at w c
