-- ===== src/Pairing/Origin/Resume.antt =====
-- Tokens of a start that resumes a request: src/pairing/create.rs, `start_or_resume`, and the reaction to a
-- rejected token of src/pairing/local.rs.
use host_monitoring_client.Common.{
  ◌≡◌, subst, sym, ℕ, List, Option, none, some, if◌then◌else◌, Bool,
}
use host_monitoring_client.Common.Text.{Text}
use host_monitoring_client.Config.{ClientConfig}
use host_monitoring_client.Error.{Error, superseded}
use host_monitoring_client.Exec.{World, Exec, pure, throw}
use host_monitoring_client.Exec.Runs.{
  Runs, Post, Runs-pure, Runs-throw, Runs-bind, Runs-mono, Runs-given, Runs-if, Runs-at, Runs-try,
}
use host_monitoring_client.Pairing.State.{
  HostIdentity, PairingSession, PairingProgress, waiting, active_progress, denied_progress,
  expired_progress, creating_progress,
}
use host_monitoring_client.Pairing.Platform.{Platform, PlatformLaws}
use host_monitoring_client.Pairing.Http.{Net, PairMode, hex, ended_for}
use host_monitoring_client.Pairing.Create.{
  PairingStart, waiting_start, create_start, check_expired, validate_requested_mode,
}
use host_monitoring_client.Pairing.Polling.{
  after_progress, after_failure, start_from, start_again, resume, start_or_resume_with_mode,
}
use host_monitoring_client.Pairing.Origin.{Bound, Always}
use host_monitoring_client.Pairing.Origin.Start.{
  Runs-require, NetBound, Starts, inferred_mode-Runs, prepare_start-Bound,
  finish_create_request-Bound,
}
use host_monitoring_client.Pairing.Origin.Poll.{poll_existing-Runs}

module _ (x : Platform) (laws : PlatformLaws x) (P : Text → Text → Type 0) (config : ClientConfig)
    (fresh : (n : ℕ) (bytes : List ℕ)
      → x.random_bytes n ≡ some bytes
      → P (hex bytes) config.endpoint)
    (host : HostIdentity) (net : Net) (good : NetBound x laws P net) where
  abbrev Keeps : {A : Type 0} → Exec A → Type 0
  Keeps m = Runs (λ w. Bound x laws P w.disk) m (Always x laws P) (Always x laws P)

  validate_requested_mode-Keeps : (mode : PairMode) → Keeps (validate_requested_mode x host mode)
  unfolding validate_requested_mode
  validate_requested_mode-Keeps mode =
      Runs-bind _ _
        (Runs-at λ d b.
          Runs-mono (inferred_mode-Runs x host d) (λ w p. p)
            (λ _ w p. subst (Bound x laws P) (sym p) b) (λ _ w p. p))
        λ inferred. Runs-require _ _ (λ w p. p)

  chosen : {A : Type 0} (b : Bool) (a : A) → Keeps (if b then pure a else throw superseded)
  chosen b a =
      Runs-if b (pure a) (throw superseded) (λ _. Runs-pure a (λ w p. p))
        (λ _. Runs-throw superseded (λ w p. p))

  after_progress-Keeps :
      (s : PairingSession) (o : Option PairingProgress) → Keeps (after_progress x s o)
  after_progress-Keeps s none = Runs-throw superseded (λ w p. p)
  after_progress-Keeps s (some (creating_progress g e)) = Runs-throw superseded (λ w p. p)
  after_progress-Keeps s (some (waiting c)) = chosen _ (some c)
  after_progress-Keeps s (some (active_progress g r i e)) = chosen _ (some s)
  after_progress-Keeps s (some (denied_progress g r u)) = chosen _ none
  after_progress-Keeps s (some (expired_progress g r u)) = chosen _ none

  after_failure-Keeps : (s : PairingSession) (e : Error) → Keeps (after_failure x s e)
  after_failure-Keeps s e =
      Runs-if (ended_for e s.request_id) (pure none) (throw e) (λ _. Runs-pure none (λ w p. p))
        (λ _. Runs-throw e (λ w p. p))

  start_again-Keeps :
      (start : PairingStart)
      → Runs
          (Starts x laws P start)
          (start_again x config host net start)
          (Always x laws P)
          (Always x laws P)
  start_again-Keeps (waiting_start s) = Runs-pure s (λ w p. p.1)
  start_again-Keeps (create_start c) =
      Runs-given λ own. finish_create_request-Bound x laws P config net c good own
  start_again-Keeps (check_expired s) = Runs-throw superseded (λ w p. p.1)

  resume-Keeps : (o : Option PairingSession) → Keeps (resume x config host net o)
  resume-Keeps (some s) = Runs-pure s (λ w p. p)
  resume-Keeps none =
      Runs-bind _ _ (prepare_start-Bound x laws P config fresh host)
        λ start. start_again-Keeps start

  start_from-Keeps :
      (start : PairingStart)
      → Runs
          (Starts x laws P start)
          (start_from x config host net start)
          (Always x laws P)
          (Always x laws P)
  start_from-Keeps (waiting_start s) = Runs-pure s (λ w p. p.1)
  start_from-Keeps (create_start c) =
      Runs-given λ own. finish_create_request-Bound x laws P config net c good own
  start_from-Keeps (check_expired s) =
      Runs-bind _ _
        (Runs-try _ _ _
          (Runs-mono (poll_existing-Runs x laws P config net good) (λ w p. p.1) (λ _ w p. p)
            (λ _ w p. p))
          (λ o. after_progress-Keeps s o) (λ e. after_failure-Keeps s e))
        λ o. resume-Keeps o

  start_or_resume_with_mode-Runs :
      (mode : PairMode)
      → Runs
          (λ w. Bound x laws P w.disk)
          (start_or_resume_with_mode x config host net mode)
          (Always x laws P)
          (Always x laws P)
  unfolding start_or_resume_with_mode
  start_or_resume_with_mode-Runs mode = Runs-bind _ _ (validate_requested_mode-Keeps mode) λ _.
      Runs-bind _ _ (prepare_start-Bound x laws P config fresh host) λ start. start_from-Keeps start

  -- Starting or resuming a request keeps every token bound to the endpoint that it was generated for,
  -- given that fresh secrets belong to the configured endpoint and that the processes that act while the
  -- client waits for the server keep the tokens bound; however the command ends.
  pub start_or_resume_with_mode-Bound :
      (mode : PairMode) (w : World)
      → Bound x laws P w.disk
      → Post
          (Always x laws P)
          (Always x laws P)
          (start_or_resume_with_mode x config host net mode w)
  start_or_resume_with_mode-Bound mode w h = (start_or_resume_with_mode-Runs mode).at w h
