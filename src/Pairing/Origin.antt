-- ===== src/Pairing/Origin.antt =====
-- Where a token may go: src/pairing/create.rs, polling.rs and local.rs keep each token with the report
-- endpoint that it was generated for.
pub mod Start
pub mod Poll
pub mod Activation
pub mod Resume
pub mod Reporter
pub mod Snapshots
use host_monitoring_client.Common.{
  ◌≡◌, refl, ap, subst, sym, ◌∙◌, ◌⊎◌, inl, inr, Bool, true, false, Option, none, some, ◌==◌,
}
use host_monitoring_client.Common.Text.{Text, trim}
use host_monitoring_client.Error.{Error}
use host_monitoring_client.Exec.{World, Exec, Result, ok, err}
use host_monitoring_client.Exec.Runs.{Runs, Runs-mono}
use host_monitoring_client.StateFiles.{Disk, put, pairing, authorization}
use host_monitoring_client.StateStore.{begin}
use host_monitoring_client.StateStore.Laws.{At, begin-Runs, created}
use host_monitoring_client.Pairing.State.{
  StoredPairingState, creating, pending, activating, active, denied, expired, Activating,
  ActiveBinding, LocalAuthState, generation_of,
}
use host_monitoring_client.Pairing.Platform.{Platform, PlatformLaws}
use host_monitoring_client.Pairing.Identity.{trim-token}
use host_monitoring_client.Pairing.Documents.{
  decode_state, decode_binding, persist_state, persist_auth_state, decode_pairing_document,
  validate_active_binding,
}
use host_monitoring_client.Pairing.Documents.Laws.{
  stored_state, stored_binding, persist_state-Runs, persist_auth_state-Runs, as_option,
}
use host_monitoring_client.Pairing.Documents.Printed.{decode-stored_state, decode-stored_binding}
use host_monitoring_client.Pairing.Credentials.{
  finish_activating, binding_of_journal, active_of_journal,
}
use host_monitoring_client.Pairing.Credentials.Recovery.{
  Agrees, IsCommitted, committed, finish_activating-Runs,
}

-- `P token endpoint`: the token was generated for reports to the endpoint.
module _ (x : Platform) (laws : PlatformLaws x) (P : Text → Text → Type 0) where
  -- The token in the journal belongs to the journal's endpoint.
  abbrev pub JournalBound : Option StoredPairingState → Type 0
  JournalBound (some (creating s)) = P s.bearer_secret s.report_endpoint
  JournalBound (some (pending s)) = P s.bearer_secret s.report_endpoint
  JournalBound (some (activating s)) = P s.bearer_secret s.report_endpoint
  JournalBound s = Unit

  -- The token in the credential file belongs to the endpoint in the binding file.
  abbrev pub FilesBound : Disk → Type 0
  FilesBound d =
      (t : Text) (b : ActiveBinding)
      → d.credential_file ≡ some t
      → stored_binding x d ≡ some b
      → P t b.report_endpoint

  abbrev pub Settled : Disk → Type 0
  Settled d = JournalBound (stored_state x d) × FilesBound d

  -- While a commit is being made the two files may be those of different requests.
  abbrev pub Bound : Disk → Type 0
  Bound d =
      Settled d
      ⊎ ((a : Activating) × (stored_state x d ≡ some (activating a))
          × P a.bearer_secret a.report_endpoint)

  -- The journal that is stored after `s` was written is `s`, or it is not readable.
  JournalBound-written :
      (s : StoredPairingState)
      → JournalBound (some s)
      → (o : Option StoredPairingState) → as_option (decode_state x (trim (x.state_to_json s))) ≡ o
      → JournalBound o
  JournalBound-written s h none e = tt
  JournalBound-written s h (some r) e =
      subst (λ r. JournalBound (some r)) (sym (decode-stored_state x laws s r e)) h

  pub committed-Settled :
      (a : Activating) (d e : Disk)
      → P a.bearer_secret a.report_endpoint
      → IsCommitted x a d e
      → Settled e
  unfolding committed binding_of_journal
  committed-Settled a d e p (token, (t, u, h)) = subst Settled (sym h) (
    JournalBound-written (active (active_of_journal a u)) tt _ refl,
    λ k b file stored. bound k b file stored,
  )
    where
      bound :
          (k : Text) (b : ActiveBinding)
          → some (trim a.bearer_secret) ≡ some k
          → as_option (decode_binding x (trim (x.binding_to_json (binding_of_journal a)))) ≡ some b
          → P k b.report_endpoint
      bound k b file stored =
          let same_token : a.bearer_secret ≡ k = cc (file, trim-token a.bearer_secret token) in
          let same_binding : binding_of_journal a ≡ b =
            sym (decode-stored_binding x laws (binding_of_journal a) b stored) in
          subst (λ (k : Text). P k b.report_endpoint) same_token
            (subst (λ (b : ActiveBinding). P a.bearer_secret b.report_endpoint) same_binding p)

  abbrev pub Always : {A : Type 0} → A → World → Type 0
  Always _ w = Bound w.disk

  -- The end of a commit, for whichever copy of the journal the caller holds.
  pub finish_activating-Settled :
      (d : Disk) (a : Activating)
      → stored_state x d ≡ some (activating a)
      → P a.bearer_secret a.report_endpoint
      → (r : Activating)
      → Runs (At d) (finish_activating x (activating r)) (λ _ w. Settled w.disk) Always
  finish_activating-Settled d a stored p r =
      Runs-mono (finish_activating-Runs x a d stored r) (λ w q. q)
        (λ _ w c. committed-Settled a d w.disk p c) (λ _ w k. kept w k)
    where
      kept : (w : World) → (Agrees d w.disk ⊎ IsCommitted x a d w.disk) → Bound w.disk
      kept w (inl k) = inr (a, (rw k.same_journal stored), p)
      kept w (inr c) = inl (committed-Settled a d w.disk p c)

  -- A new journal, written while no commit is being made.
  pub persist_state-Bound :
      (s : StoredPairingState) (d : Disk)
      → Settled d
      → JournalBound (some s)
      → Runs
          (At d)
          (persist_state x s)
          (λ _ w. Settled w.disk × At (put pairing (some (trim (x.state_to_json s))) d) w)
          Always
  persist_state-Bound s d old new =
      Runs-mono (persist_state-Runs x s d) (λ w q. q) (λ _ w q. (written w q, q))
        (λ _ w q. either w q)
    where
      written :
          (w : World) → At (put pairing (some (trim (x.state_to_json s))) d) w → Settled w.disk
      written w q = subst Settled (sym q) (JournalBound-written s new _ refl, old.1)

      either :
          (w : World)
          → (At d w ⊎ At (put pairing (some (trim (x.state_to_json s))) d) w)
          → Bound w.disk
      either w (inl q) = inl (subst Settled (sym q) old)
      either w (inr q) = inl (written w q)

  -- The authorization file says nothing about tokens.
  pub persist_auth_state-Bound :
      (s : LocalAuthState) → Runs (λ w. Bound w.disk) (persist_auth_state x s) Always Always
  persist_auth_state-Bound s = record { at = λ w p. (step w.disk p).at w refl }
    where
      same : (d : Disk) → Bound d → Bound (put authorization (some (trim (x.auth_to_json s))) d)
      same d h = h

      either :
          (d : Disk) (w : World)
          → Bound d
          → (At d w ⊎ At (put authorization (some (trim (x.auth_to_json s))) d) w)
          → Bound w.disk
      either d w h (inl q) = subst Bound (sym q) h
      either d w h (inr q) = subst Bound (sym q) (same d h)

      step : (d : Disk) → Bound d → Runs (At d) (persist_auth_state x s) Always Always
      step d h =
          Runs-mono (persist_auth_state-Runs x s d) (λ w q. q)
            (λ _ w q. subst Bound (sym q) (same d h)) (λ _ w q. either d w h q)

  pub begin-Bound : Runs (λ w. Bound w.disk) begin Always Always
  begin-Bound = record { at = λ w p. (step w.disk p).at w refl }
    where
      same : (d : Disk) → Bound d → Bound (created d)
      same d h = h

      either : (d : Disk) (w : World) → Bound d → (At d w ⊎ At (created d) w) → Bound w.disk
      either d w h (inl q) = subst Bound (sym q) h
      either d w h (inr q) = subst Bound (sym q) (same d h)

      step : (d : Disk) → Bound d → Runs (At d) begin Always Always
      step d h =
          Runs-mono (begin-Runs d) (λ w q. q) (λ _ w q. subst Bound (sym q) (same d h))
            (λ _ w q. either d w h q)

  -- A journal that is no commit tells that none is being made.
  pub Bound-Settled :
      (d : Disk) (o : Option StoredPairingState)
      → stored_state x d ≡ o
      → ((a : Activating) → o ≡ some (activating a) → ⊥)
      → Bound d
      → Settled d
  Bound-Settled d o e h (inl s) = s
  Bound-Settled d o e h (inr (a, stored, p)) = absurd (h a (sym e ∙ stored))
