-- ===== src/Pairing/Origin/Activation.antt =====
-- Tokens while a code is submitted: src/pairing/activation_flow.rs, and the reaction to a rejected token of
-- src/pairing/local.rs.
use host_monitoring_client.Common.{
  subst, sym, Bool, Option, none, some, ◌==◌, ◌&&◌, if◌then◌else◌, [], ◌∷◌,
}
use host_monitoring_client.Common.Text.{Text}
use host_monitoring_client.Config.{ClientConfig}
use host_monitoring_client.Error.{
  Error, activate, rejected, superseded, no_longer_pending, activation_instance_mismatch,
}
use host_monitoring_client.Exec.{World, Exec, Result, ok, err, pure, throw, ◌>>=◌, ◌>>◌}
use host_monitoring_client.Exec.Runs.{
  Runs, Post, Runs-pure, Runs-throw, Runs-bind, Runs-mono, Runs-if, Runs-at,
}
use host_monitoring_client.Pairing.State.{
  Uuid, StoredPairingState, pending, activating, active, Pending,
}
use host_monitoring_client.Pairing.Platform.{Platform, PlatformLaws}
use host_monitoring_client.Pairing.Documents.{load_state}
use host_monitoring_client.Pairing.Documents.Laws.{load_state-Runs}
use host_monitoring_client.Pairing.Credentials.{or_throw}
use host_monitoring_client.Pairing.Compare.{key_of_pending}
use host_monitoring_client.Pairing.Compare.Laws.{ensure_pending_is_current-Runs}
use host_monitoring_client.Pairing.Http.{Net, HttpResponse, ended_for, ensure_pairing_response}
use host_monitoring_client.Pairing.Polling.{mark_pending_expired}
use host_monitoring_client.Pairing.Activation.{
  Before, submit, already, look, before_activation, accept_activated, activated_instance, confirm,
  differs, look_again, after_activation, submit_code, activate_before, activate_pending_with_code,
}
use host_monitoring_client.Pairing.Origin.{Bound, Always, begin-Bound}
use host_monitoring_client.Pairing.Origin.Start.{Runs-require, Runs-lifted, NetBound}
use host_monitoring_client.Pairing.Origin.Poll.{mark_pending_expired-Bound}

module _ (x : Platform) (laws : PlatformLaws x) (P : Text → Text → Type 0)
    (generation request_id : Uuid) where
  Keeps : {A : Type 0} → Exec A → Type 0
  Keeps m = Runs (λ w. Bound x laws P w.disk) m (Always x laws P) (Always x laws P)

  or_throw-Keeps : {A : Type 0} (o : Option A) (e : Error) → Keeps (or_throw o e)
  unfolding Keeps
  or_throw-Keeps none e = Runs-throw e (λ w p. p)
  or_throw-Keeps (some a) e = Runs-pure a (λ w p. p)

  only_if : {A : Type 0} (b : Bool) (a : A) (e : Error) → Keeps (if b then pure a else throw e)
  unfolding Keeps
  only_if b a e =
      Runs-if b (pure a) (throw e) (λ _. Runs-pure a (λ w p. p)) (λ _. Runs-throw e (λ w p. p))

  look-Keeps : (s : StoredPairingState) → Keeps (look x generation request_id s)
  unfolding Keeps
  look-Keeps (pending p) =
      Runs-bind _ _ (Runs-lifted _ (λ e w q. q)) λ _. only_if _ (submit p) superseded
  look-Keeps (activating a) = only_if _ (already a.instance_id) (rejected no_longer_pending)
  look-Keeps (active a) = only_if _ (already a.instance_id) (rejected no_longer_pending)
  look-Keeps s = Runs-throw (rejected no_longer_pending) (λ w q. q)

  loaded-Keeps :
      {A : Type 0} (f : Option StoredPairingState → Exec A)
      → ((o : Option StoredPairingState) → Keeps (f o))
      → Keeps (load_state x >>= f)
  unfolding Keeps
  loaded-Keeps f h = Runs-at λ d b.
      Runs-bind _ _
        (Runs-mono (load_state-Runs x d) (λ w p. p) (λ _ w p. subst (Bound x laws P) (sym p.0) b)
          (λ _ w p. subst (Bound x laws P) (sym p) b))
        h

  before_activation-Keeps : Keeps (before_activation x generation request_id)
  unfolding before_activation Keeps
  before_activation-Keeps =
      Runs-bind _ _ (begin-Bound x laws P)
        λ _. loaded-Keeps _ λ o. Runs-bind _ _ (or_throw-Keeps o _) λ s. look-Keeps s

  accept_activated-Keeps :
      (p : Pending) (response : HttpResponse) (r : Result (Unit {0}))
      → Keeps (accept_activated x generation request_id p response r)
  unfolding Keeps
  accept_activated-Keeps p response (ok u) =
      Runs-bind _ _ (Runs-lifted _ (λ e w q. q)) λ id. Runs-pure _ (λ w q. q)
  accept_activated-Keeps p response (err e) =
      Runs-if (ended_for e p.request_id) (mark_pending_expired x p >> throw e) (throw e)
        (λ _. Runs-bind _ _ (mark_pending_expired-Bound x laws P p) λ _. Runs-throw e (λ w q. q))
        (λ _. Runs-throw e (λ w q. q))

  confirm-Keeps : (o : Option Uuid) (id : Uuid) → Keeps (confirm x generation request_id o id)
  unfolding Keeps
  confirm-Keeps o id =
      Runs-if (differs x generation request_id o id) (throw (rejected activation_instance_mismatch))
        (pure (some id)) (λ _. Runs-throw (rejected activation_instance_mismatch) (λ w q. q))
        (λ _. Runs-pure (some id) (λ w q. q))

  look_again-Keeps :
      (p : Pending) (o : Option Uuid) (s : StoredPairingState)
      → Keeps (look_again x generation request_id p o s)
  unfolding Keeps
  look_again-Keeps p o (pending q) =
      Runs-bind _ _
        (Runs-at λ d b.
          Runs-mono (ensure_pending_is_current-Runs x (key_of_pending p) d) (λ w p. p)
            (λ _ w p. subst (Bound x laws P) (sym p.0) b)
            (λ _ w p. subst (Bound x laws P) (sym p) b))
        λ _. Runs-pure _ (λ w q. q)
  look_again-Keeps p o (activating a) =
      Runs-if (a.generation == generation && a.request_id == request_id)
        (confirm x generation request_id o a.instance_id) (throw superseded)
        (λ _. confirm-Keeps o a.instance_id) (λ _. Runs-throw superseded (λ w q. q))
  look_again-Keeps p o (active a) =
      Runs-if (a.generation == generation && a.request_id == request_id)
        (confirm x generation request_id o a.instance_id) (throw superseded)
        (λ _. confirm-Keeps o a.instance_id) (λ _. Runs-throw superseded (λ w q. q))
  look_again-Keeps p o s = Runs-throw superseded (λ w q. q)

  after_activation-Keeps :
      (p : Pending) (o : Option Uuid) → Keeps (after_activation x generation request_id p o)
  unfolding after_activation Keeps
  after_activation-Keeps p o =
      Runs-bind _ _ (begin-Bound x laws P)
        λ _. loaded-Keeps _ λ s. Runs-bind _ _ (or_throw-Keeps s _) λ r. look_again-Keeps p o r

  activated_instance-Keeps :
      (p : Pending) (response : HttpResponse)
      → Keeps (activated_instance x generation request_id p response)
  unfolding activated_instance Keeps
  activated_instance-Keeps p response =
      let kept = ensure_pairing_response x response (200 ∷ []) activate in
      Runs-if (response.status == 409) (pure none)
        (accept_activated x generation request_id p response kept) (λ _. Runs-pure none (λ w q. q))
        (λ _. accept_activated-Keeps p response kept)

  module _ (config : ClientConfig) (net : Net) (good : NetBound x laws P net) (code : Text) where
    submit_code-Keeps :
        (p : Pending) → Keeps (submit_code x generation request_id config net code p)
    unfolding submit_code Keeps
    submit_code-Keeps p = Runs-bind _ _ (Runs-lifted _ (λ e w q. q)) λ _.
        Runs-bind _ _ (Runs-lifted _ (λ e w q. q)) λ _.
          Runs-bind _ _ (Runs-lifted _ (λ e w q. q)) λ endpoint.
            Runs-bind _ _ (Runs-require _ _ (λ w q. q)) λ _. Runs-bind _ _ (good _) λ response.
              Runs-bind _ _ (activated_instance-Keeps p response) λ o. after_activation-Keeps p o

    activate_before-Keeps :
        (b : Before) → Keeps (activate_before x generation request_id config net code b)
    unfolding Keeps
    activate_before-Keeps (already id) = Runs-pure _ (λ w q. q)
    activate_before-Keeps (submit p) = submit_code-Keeps p

    activate_pending_with_code-Keeps :
        Keeps (activate_pending_with_code x generation request_id config net code)
    unfolding activate_pending_with_code Keeps
    activate_pending_with_code-Keeps =
        Runs-bind _ _ (Runs-lifted _ (λ e w q. q))
          λ _. Runs-bind _ _ before_activation-Keeps λ b. activate_before-Keeps b

    -- Submitting an activation code keeps every token bound to the endpoint that it was generated for,
    -- whatever the server answers and wherever it fails, given that the processes that act while the client
    -- waits keep the tokens bound.
    pub activate_pending_with_code-Bound :
        (w : World)
        → Bound x laws P w.disk
        → Post
            (Always x laws P)
            (Always x laws P)
            (activate_pending_with_code x generation request_id config net code w)
    unfolding Keeps
    activate_pending_with_code-Bound w h = activate_pending_with_code-Keeps.at w h
