-- ===== src/Pairing/Credentials/Invalidation.antt =====
-- A rejected token: `HostCredentials::invalidate` of src/pairing/credentials.rs.
use host_monitoring_client.Common.{
  ◌≡◌, refl, ◌⊎◌, inl, inr, true, Option, none, some, arith, ◌==◌, ◌&&◌,
}
use host_monitoring_client.Common.Text.{Text, trim}
use host_monitoring_client.Error.{rejected, corrupt, active_binding, authorization_missing}
use host_monitoring_client.Exec.{World, pure, throw}
use host_monitoring_client.Exec.Runs.{
  Runs, Post, Runs-pure, Runs-throw, Runs-bind, Runs-mono, Runs-when, Runs-if, Runs-utc_now,
}
use host_monitoring_client.StateFiles.{Disk, put, authorization}
use host_monitoring_client.StateStore.Laws.{At}
use host_monitoring_client.Pairing.State.{
  Time, StoredPairingState, active, activating, Activating, ActiveBinding, LocalAuthState,
}
use host_monitoring_client.Pairing.Platform.{Platform}
use host_monitoring_client.Pairing.Documents.{binding_of_active}
use host_monitoring_client.Pairing.Documents.Laws.{
  stored_state, stored_binding, load_state-Runs, load_active_binding-Runs, load_auth_state-Runs,
  persist_auth_state-Runs,
}
use host_monitoring_client.Pairing.Credentials.{
  Revision, CredentialMutation, applied, mutation_superseded, current_binding, binding_for,
  checked_binding, binding_is, require_reauthorization, reauthorization_at, invalidate,
  invalidate_binding, or_throw,
}

module _ (x : Platform) where
  -- A binding in force is the stored one, and no commit is being made.
  abbrev pub InForce : Disk → Option ActiveBinding → Type 0
  InForce d none = Unit
  InForce d (some b) =
      (stored_binding x d ≡ some b)
      × ((a : Activating) → stored_state x d ≡ some (activating a) → ⊥)

  checked_binding-Runs :
      (s : StoredPairingState) (b : Option ActiveBinding) (d : Disk)
      → InForce d b
      → Runs (At d) (checked_binding x s b) (λ o w. At d w × InForce d o) (λ _. At d)
  checked_binding-Runs (active s) b d h =
      Runs-if (binding_is b (binding_of_active s)) (pure b) (throw (corrupt active_binding))
        (λ _. Runs-pure b (λ w p. (p, h))) (λ _. Runs-throw (corrupt active_binding) (λ w p. p))
  checked_binding-Runs s b d h = Runs-pure b (λ w p. (p, h))

  in_force :
      (d : Disk) (s : StoredPairingState) (b : Option ActiveBinding)
      → stored_state x d ≡ some s
      → ((a : Activating) → s ≡ activating a → ⊥)
      → stored_binding x d ≡ b
      → InForce d b
  in_force d s none e k h = tt
  in_force d s (some b) e k h = (h, λ a f. k a (cc (e, f)))

  binding_for-Runs :
      (o : Option StoredPairingState) (d : Disk)
      → stored_state x d ≡ o
      → Runs (At d) (binding_for x o) (λ o w. At d w × InForce d o) (λ _. At d)
  binding_for-Runs none d e = Runs-pure none (λ w p. (p, tt))
  binding_for-Runs (some (activating a)) d e = Runs-pure none (λ w p. (p, tt))
  binding_for-Runs (some s) d e =
      Runs-bind _ _ (load_active_binding-Runs x d) λ b.
        Runs-when λ h. checked_binding-Runs s b d (in_force d s b e (λ a k. ground (arith, k)) h)

  current_binding-Runs :
      (d : Disk) → Runs (At d) (current_binding x) (λ o w. At d w × InForce d o) (λ _. At d)
  unfolding current_binding
  current_binding-Runs d =
      Runs-bind _ _ (load_state-Runs x d) λ o. Runs-when λ e. binding_for-Runs o d e

  abbrev pub Marked : Text → Disk → World → Type 0
  Marked reason d w =
      (t : Time) × At
        (put authorization (some (trim (x.auth_to_json (reauthorization_at reason t)))) d) w

  -- The revision in force is the expected one, and no commit is being made.
  abbrev pub IsCurrent : Revision → Disk → Type 0
  IsCurrent expected d =
      (b : ActiveBinding) × InForce d (some b)
      × ((b.generation == expected.0 && b.request_id == expected.1) ≡ true)

  -- A failure leaves the disk alone, but for a mark of the revision in force.
  abbrev pub Interrupted : Revision → Text → Disk → World → Type 0
  Interrupted expected reason d w = At d w ⊎ (Marked reason d w × IsCurrent expected d)

  abbrev pub Invalidated : Revision → Text → Disk → CredentialMutation → World → Type 0
  Invalidated expected reason d applied w = Marked reason d w × IsCurrent expected d
  Invalidated expected reason d mutation_superseded w = At d w

  require_reauthorization-Runs :
      (reason : Text) (d : Disk)
      → Runs
          (At d)
          (require_reauthorization x reason)
          (λ m w. (m ≡ applied) × Marked reason d w)
          (λ _ w. At d w ⊎ Marked reason d w)
  unfolding require_reauthorization
  require_reauthorization-Runs reason d =
      Runs-bind _ _
        (Runs-mono (load_auth_state-Runs x d) (λ w p. p) (λ _ w p. p.0) (λ _ w p. inl p))
        λ auth. Runs-bind _ _ (authorized auth) λ _. Runs-bind _ _ Runs-utc_now λ t.
          Runs-bind _ _
            (Runs-mono (persist_auth_state-Runs x (reauthorization_at reason t) d) (λ w p. p)
              (λ _ w p. p) (λ _ w p. left t w p))
            λ _. Runs-pure applied (λ w p. (refl, (t, p)))
    where
      authorized :
          (o : Option LocalAuthState)
          → Runs
              (At d)
              (or_throw o (rejected authorization_missing))
              (λ _. At d)
              (λ _ w. At d w ⊎ Marked reason d w)
      authorized none = Runs-throw (rejected authorization_missing) (λ w p. inl p)
      authorized (some a) = Runs-pure a (λ w p. p)

      left :
          (t : Time) (w : World)
          → (At d w
              ⊎ At
                  (put authorization (some (trim (x.auth_to_json (reauthorization_at reason t)))) d)
                  w)
          → At d w ⊎ Marked reason d w
      left t w (inl p) = inl p
      left t w (inr p) = inr (t, p)

  pub invalidate-Runs :
      (expected : Revision) (reason : Text) (d : Disk)
      → Runs
          (At d)
          (invalidate x expected reason)
          (Invalidated expected reason d)
          (λ _. Interrupted expected reason d)
  unfolding invalidate
  invalidate-Runs expected reason d =
      Runs-bind _ _ (Runs-mono (current_binding-Runs d) (λ w p. p) (λ _ w p. p) (λ _ w p. inl p))
        with_binding
    where
      with_binding :
          (o : Option ActiveBinding)
          → Runs
              (λ w. At d w × InForce d o)
              (invalidate_binding x expected reason o)
              (Invalidated expected reason d)
              (λ _. Interrupted expected reason d)
      with_binding none = Runs-pure mutation_superseded (λ w p. p.0)
      with_binding (some b) = Runs-when λ h.
          Runs-if (b.generation == expected.0 && b.request_id == expected.1)
            (require_reauthorization x reason) (pure mutation_superseded)
            (λ e.
              Runs-mono (require_reauthorization-Runs reason d) (λ w p. p)
                (λ m w p. rw p.0 (p.1, (b, h, e)))
                (λ _ w p. elim p [ inl a ↦ inl a | inr m ↦ inr (m, (b, h, e)) ]))
            (λ _. Runs-pure mutation_superseded (λ w p. p))

  -- A rejection marks the stored credential only while its own revision is in force and no commit is being
  -- made, also where the operation fails in the end; then it replaces the authorization file and nothing
  -- else. A late rejection of an older credential changes nothing, whether it succeeds or fails.
  pub invalidate-Invalidated :
      (expected : Revision) (reason : Text) (d : Disk) (w : World)
      → w.disk ≡ d
      → Post
          (Invalidated expected reason d)
          (λ _. Interrupted expected reason d)
          (invalidate x expected reason w)
  invalidate-Invalidated expected reason d w h = (invalidate-Runs expected reason d).at w h
