-- ===== src/Pairing/Origin/Poll.antt =====
-- Tokens of requests in flight: src/pairing/polling.rs and commit_flow.rs.
use host_monitoring_client.Common.{
  ◌≡◌, refl, subst, sym, ap, ◌∙◌, inl, true, Option, none, some, arith, ◌==◌, ◌&&◌,
}
use host_monitoring_client.Common.Text.{Text, trim}
use host_monitoring_client.Config.{ClientConfig}
use host_monitoring_client.Error.{
  Error, rejected, superseded, unexpected_instance_id, omitted_instance_id,
}
use host_monitoring_client.Exec.{World, Exec, Result, ok, err, pure, throw, ◌>>=◌, ◌>>◌}
use host_monitoring_client.Exec.Runs.{
  Runs, Runs-pure, Runs-throw, Runs-bind, Runs-mono, Runs-when, Runs-if, Runs-at, Runs-utc_now,
  Post,
}
use host_monitoring_client.StateFiles.{Disk}
use host_monitoring_client.StateStore.Laws.{At}
use host_monitoring_client.Pairing.State.{
  Uuid, StoredPairingState, creating, pending, activating, active, Activating, Pending,
  active_progress,
}
use host_monitoring_client.Pairing.Platform.{
  Platform, PlatformLaws, PairingStatus, status_waiting, status_active, status_denied,
  status_expired,
}
use host_monitoring_client.Pairing.Documents.Laws.{stored_state, load_state-Runs, decoded}
use host_monitoring_client.Pairing.Documents.Printed.{decode-stored_state}
use host_monitoring_client.Pairing.Documents.{decode_state, load_state}
use host_monitoring_client.Pairing.Credentials.{finish_activating}
use host_monitoring_client.Pairing.Credentials.Recovery.{unreadable-Runs}
use host_monitoring_client.Pairing.Commit.{
  persist_active_credentials, recover_activating, recover_current, journal_of_pending,
}
use host_monitoring_client.Pairing.Compare.{
  RequestKey, is_pending, key_of_pending, compare_and_persist_pending,
}
use host_monitoring_client.Pairing.Compare.Laws.{ensure_pending_is_current-Runs, is_pending-pending}
use host_monitoring_client.Pairing.Http.{Net, HttpResponse, ended_for}
use host_monitoring_client.Pairing.Polling.{
  mark_pending_expired, mark_pending_denied, without_instance, apply_status, accept_status,
  poll_pending, poll_from, poll_existing,
}
use host_monitoring_client.Pairing.Origin.{
  JournalBound, Settled, Bound, Always, begin-Bound, persist_state-Bound, finish_activating-Settled,
  Bound-Settled,
}
use host_monitoring_client.Pairing.Origin.Start.{
  Runs-require, Runs-lifted, journal_bound, NetBound, finish_create_request-Bound,
}

module _ (x : Platform) (laws : PlatformLaws x) (P : Text → Text → Type 0) where
  -- Every end of the program leaves the tokens bound.
  abbrev pub KeepsBound : {A : Type 0} → Exec A → Type 0
  KeepsBound m = Runs (λ w. Bound x laws P w.disk) m (Always x laws P) (Always x laws P)

  stays : (d : Disk) (w : World) → Bound x laws P d → At d w → Bound x laws P w.disk
  stays d w h p = subst (Bound x laws P) (sym p) h

  pub load-Bound :
      {A : Type 0} (f : Option StoredPairingState → Exec A)
      → ((d : Disk) (o : Option StoredPairingState)
          → stored_state x d ≡ o
          → Bound x laws P d
          → Runs (At d) (f o) (Always x laws P) (Always x laws P))
      → KeepsBound (load_state x >>= f)
  load-Bound f h = Runs-at λ d b.
      Runs-bind _ _
        (Runs-mono (load_state-Runs x d) (λ w p. p) (λ _ w p. p) (λ _ w p. stays d w b p))
        λ o. Runs-when λ e. h d o e b

  throws :
      {A : Type 0} (d : Disk) (e : Error)
      → Bound x laws P d
      → Runs (At d) (throw {A = A} e) (Always x laws P) (Always x laws P)
  throws d e h = Runs-throw e (λ w p. stays d w h p)

  recover_current-Bound :
      (a : Activating) (d : Disk) (o : Option StoredPairingState)
      → stored_state x d ≡ o
      → Bound x laws P d
      → Runs (At d) (recover_current x a o) (Always x laws P) (Always x laws P)
  recover_current-Bound a d none e b = throws d superseded b
  recover_current-Bound a d (some (activating c)) e b =
      Runs-if _ _ _
        (λ _.
          Runs-mono
            (finish_activating-Settled x laws P d c e (journal_bound x laws P d (activating c) e b)
              c)
            (λ w p. p) (λ _ w p. inl p) (λ _ w p. p))
        (λ _. throws d superseded b)
  recover_current-Bound a d (some (active c)) e b =
      let reported = active_progress c.generation c.request_id c.instance_id c.report_endpoint in
      Runs-if (c.generation == a.generation && c.request_id == a.request_id) (pure reported)
        (throw superseded) (λ _. Runs-pure reported (λ w p. stays d w b p))
        (λ _. throws d superseded b)
  recover_current-Bound a d (some s) e b = throws d superseded b

  recover_activating-Bound : (a : Activating) → KeepsBound (recover_activating x (activating a))
  unfolding recover_activating
  recover_activating-Bound a =
      Runs-bind _ _ (begin-Bound x laws P)
        λ _. load-Bound (recover_current x a) (λ d o e b. recover_current-Bound a d o e b)

  -- A journal that waits for an answer is no commit.
  pending-Settled :
      (k : RequestKey) (d : Disk)
      → is_pending k (stored_state x d) ≡ true
      → Bound x laws P d
      → Settled x laws P d
  pending-Settled k d h b =
      Bound-Settled x laws P d (stored_state x d) refl
        (λ a e. let f = (is_pending-pending k (stored_state x d) h).1 in ground (arith, sym f ∙ e))
        b

  compare_and_persist_pending-Bound :
      (k : RequestKey) (next : StoredPairingState)
      → JournalBound x laws P (some next)
      → KeepsBound (compare_and_persist_pending x k next)
  unfolding compare_and_persist_pending
  compare_and_persist_pending-Bound k next own = Runs-bind _ _ (begin-Bound x laws P) λ _.
      Runs-at λ d b.
        Runs-bind _ _
          (Runs-mono (ensure_pending_is_current-Runs x k d) (λ w p. p) (λ _ w p. p)
            (λ _ w p. stays d w b p))
          λ _. Runs-when λ h.
            Runs-mono (persist_state-Bound x laws P next d (pending-Settled k d h b) own) (λ w p. p)
              (λ _ w p. inl p.0) (λ _ w p. p)

  pub mark_pending_expired-Bound : (p : Pending) → KeepsBound (mark_pending_expired x p)
  unfolding mark_pending_expired
  mark_pending_expired-Bound p =
      Runs-bind _ _ Runs-utc_now
        λ now. Runs-bind _ _ (compare_and_persist_pending-Bound _ _ tt) λ _. Runs-pure _ (λ w p. p)

  mark_pending_denied-Bound : (p : Pending) → KeepsBound (mark_pending_denied x p)
  unfolding mark_pending_denied
  mark_pending_denied-Bound p =
      Runs-bind _ _ Runs-utc_now
        λ now. Runs-bind _ _ (compare_and_persist_pending-Bound _ _ tt) λ _. Runs-pure _ (λ w p. p)

  finishes :
      (a : Activating) (w : World)
      → P a.bearer_secret a.report_endpoint
      → Settled x laws P w.disk
      → w.disk.pairing_file ≡ some (trim (x.state_to_json (activating a)))
      → (r : Activating)
      → Post (Always x laws P) (Always x laws P) (finish_activating x (activating r) w)
  finishes a w own h file r = by_stored (stored_state x w.disk) refl
    where
      by_stored :
          (o : Option StoredPairingState)
          → stored_state x w.disk ≡ o
          → Post (Always x laws P) (Always x laws P) (finish_activating x (activating r) w)
      by_stored none e =
          (unreadable-Runs x w.disk e r (λ v p. inl (subst (Settled x laws P) (sym p) h))).at w refl
      by_stored (some s) e =
          let same : s ≡ activating a =
            decode-stored_state x laws (activating a) s
              (sym (ap (decoded (decode_state x)) file) ∙ e) in
          (Runs-mono (finish_activating-Settled x laws P w.disk a (e ∙ ap some same) own r)
              (λ w p. p) (λ _ w p. inl p) (λ _ w p. p)).at
            w refl

  -- The approved request's token is committed with the request's endpoint.
  persist_active_credentials-Bound :
      (p : Pending) (id : Uuid)
      → P p.bearer_secret p.report_endpoint
      → KeepsBound (persist_active_credentials x (pending p) id)
  unfolding persist_active_credentials journal_of_pending
  persist_active_credentials-Bound p id own = Runs-bind _ _ (begin-Bound x laws P) λ _.
      Runs-at λ d b.
        Runs-bind _ _
          (Runs-mono (ensure_pending_is_current-Runs x (key_of_pending p) d) (λ w p. p) (λ _ w p. p)
            (λ _ w p. stays d w b p))
          λ _. Runs-when λ h.
            Runs-bind _ _
              (persist_state-Bound x laws P (activating (journal_of_pending p id)) d
                (pending-Settled (key_of_pending p) d h b) own)
              λ _. record {
                at = λ w q.
                    finishes (journal_of_pending p id) w own q.0
                      (ap (λ (d : Disk). d.pairing_file) q.1) _;
              }

  without_instance-Bound : (o : Option Uuid) → KeepsBound (without_instance x o)
  without_instance-Bound none = Runs-pure tt (λ w p. p)
  without_instance-Bound (some id) = Runs-throw (rejected unexpected_instance_id) (λ w p. p)

  apply_status-Bound :
      (p : Pending) (s : PairingStatus) (o : Option Uuid)
      → P p.bearer_secret p.report_endpoint
      → KeepsBound (apply_status x p s o)
  apply_status-Bound p status_waiting o own =
      Runs-bind _ _ (without_instance-Bound o) λ _. Runs-pure _ (λ w q. q)
  apply_status-Bound p status_active none own = Runs-throw (rejected omitted_instance_id) (λ w q. q)
  apply_status-Bound p status_active (some id) own = persist_active_credentials-Bound p id own
  apply_status-Bound p status_denied o own =
      Runs-bind _ _ (without_instance-Bound o) λ _. mark_pending_denied-Bound p
  apply_status-Bound p status_expired o own =
      Runs-bind _ _ (without_instance-Bound o) λ _. mark_pending_expired-Bound p

  accept_status-Bound :
      (p : Pending) (response : HttpResponse) (r : Result (Unit {0}))
      → P p.bearer_secret p.report_endpoint
      → KeepsBound (accept_status x p response r)
  accept_status-Bound p response (ok u) own =
      Runs-bind _ _ (Runs-lifted _ (λ e w q. q))
        λ polled. apply_status-Bound p polled.status polled.instance_id own
  accept_status-Bound p response (err e) own =
      Runs-if (ended_for e p.request_id) (mark_pending_expired x p >> throw e) (throw e)
        (λ _. Runs-bind _ _ (mark_pending_expired-Bound p) λ _. Runs-throw e (λ w q. q))
        (λ _. Runs-throw e (λ w q. q))

  module _ (config : ClientConfig) (net : Net) (good : NetBound x laws P net) where
    poll_pending-Bound :
        (p : Pending)
        → P p.bearer_secret p.report_endpoint
        → KeepsBound (poll_pending x config net p)
    unfolding poll_pending
    poll_pending-Bound p own = Runs-bind _ _ (Runs-lifted _ (λ e w q. q)) λ _.
        Runs-bind _ _ (Runs-lifted _ (λ e w q. q)) λ _.
          Runs-bind _ _ (Runs-lifted _ (λ e w q. q)) λ endpoint.
            Runs-bind _ _ (Runs-require _ _ (λ w q. q)) λ _.
              Runs-bind _ _ (Runs-require _ _ (λ w q. q))
                λ _. Runs-bind _ _ (good _) λ response. accept_status-Bound p response _ own

    poll_from-Bound :
        (d : Disk) (o : Option StoredPairingState)
        → stored_state x d ≡ o
        → Bound x laws P d
        → Runs (At d) (poll_from x config net o) (Always x laws P) (Always x laws P)
    poll_from-Bound d none e b = Runs-pure none (λ w p. stays d w b p)
    poll_from-Bound d (some (creating c)) e b =
        Runs-bind _ _
          (Runs-mono
            (finish_create_request-Bound x laws P config net c good
              (journal_bound x laws P d (creating c) e b))
            (λ w p. stays d w b p) (λ _ w p. p) (λ _ w p. p))
          λ s. Runs-pure _ (λ w p. p)
    poll_from-Bound d (some (pending p)) e b =
        Runs-bind _ _
          (Runs-mono (poll_pending-Bound p (journal_bound x laws P d (pending p) e b))
            (λ w q. stays d w b q) (λ _ w q. q) (λ _ w q. q))
          λ s. Runs-pure _ (λ w q. q)
    poll_from-Bound d (some (activating a)) e b =
        Runs-bind _ _
          (Runs-mono (recover_activating-Bound a) (λ w q. stays d w b q) (λ _ w q. q) (λ _ w q. q))
          λ s. Runs-pure _ (λ w q. q)
    poll_from-Bound d (some s) e b = Runs-pure _ (λ w p. stays d w b p)

    pub poll_existing-Runs :
        Runs
          (λ w. Bound x laws P w.disk)
          (poll_existing x config net)
          (Always x laws P)
          (Always x laws P)
    unfolding poll_existing
    poll_existing-Runs =
        Runs-bind _ _ (begin-Bound x laws P)
          λ _. load-Bound (poll_from x config net) (λ d o e b. poll_from-Bound d o e b)

    -- A poll keeps every token bound to the endpoint that it was generated for, whatever the server
    -- answers and wherever the poll fails, as long as the processes that act while it waits do so.
    pub poll_existing-Bound :
        (w : World)
        → Bound x laws P w.disk
        → Post (Always x laws P) (Always x laws P) (poll_existing x config net w)
    poll_existing-Bound w h = poll_existing-Runs.at w h
