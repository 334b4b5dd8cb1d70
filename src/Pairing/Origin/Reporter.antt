-- ===== src/Pairing/Origin/Reporter.antt =====
-- Tokens of reporters: src/pairing/local.rs and credentials.rs, from the files to the reporter.
use host_monitoring_client.Common.{
  ◌≡◌, refl, subst, sym, Option, none, some, if◌then◌else◌, ◌==◌, ◌&&◌,
}
use host_monitoring_client.Common.Text.{Text, trim}
use host_monitoring_client.Config.{ClientConfig}
use host_monitoring_client.Error.{
  Error, rejected, corrupt, active_binding, empty_token, client_unavailable,
}
use host_monitoring_client.Exec.{World, Exec, pure, throw, ◌>>=◌}
use host_monitoring_client.Exec.Runs.{
  Runs, Runs-pure, Runs-throw, Runs-bind, Runs-mono, Runs-when, Runs-if,
}
use host_monitoring_client.StateFiles.{Disk, identity, credential}
use host_monitoring_client.StateStore.{is_empty}
use host_monitoring_client.StateStore.Laws.{At, read-Runs, found-Runs}
use host_monitoring_client.Pairing.State.{
  StoredPairingState, activating, active, HostIdentity, ActiveBinding,
}
use host_monitoring_client.Pairing.Platform.{Platform, PlatformLaws}
use host_monitoring_client.Pairing.Identity.{from_state, read_secret, load_host_identity}
use host_monitoring_client.Pairing.Documents.{
  binding_of_active, load_active_binding, load_state, load_auth_state,
}
use host_monitoring_client.Pairing.Documents.Laws.{
  stored_state, stored_binding, load_state-Runs, load_active_binding-Runs, load_auth_state-Runs,
}
use host_monitoring_client.Pairing.Credentials.{
  Revision, CredentialSnapshot, current_binding, binding_for, checked_binding, snapshot_of,
  load_authorized, load_credential, is_authorized, or_throw, binding_is,
}
use host_monitoring_client.Pairing.Local.{
  Reporter, ReporterSnapshot, build_reporter, verified_reporter, with_credential, with_reporter,
  for_existing_credential, reporter_for_active_binding, unless_current, refresh_bound,
  apply_active_config, agrees,
}
use host_monitoring_client.Pairing.Origin.{FilesBound}
use host_monitoring_client.Pairing.Origin.Start.{Runs-lifted}

module _ (x : Platform) where
  -- Reading the credential changes nothing, and its secret is the stored token.
  Secret : Disk → Option CredentialSnapshot → Type 0
  Secret d none = Unit
  Secret d (some c) = d.credential_file ≡ some c.secret

  Looks : {A : Type 0} → Disk → Exec A → Type 0
  Looks d m = Runs (At d) m (λ _. At d) (λ _. At d)

  from_state-Looks : (d : Disk) → Looks d (from_state x)
  unfolding from_state Looks
  from_state-Looks d =
      Runs-bind _ _ (Runs-mono (read-Runs identity d) (λ w p. p) (λ _ w p. p.0) (λ _ w p. p.0))
        λ v. Runs-lifted _ (λ e w p. p)

  checked_binding-Looks :
      (s : StoredPairingState) (b : Option ActiveBinding) (d : Disk)
      → Looks d (checked_binding x s b)
  unfolding Looks
  checked_binding-Looks (active s) b d =
      Runs-if (binding_is b (binding_of_active s)) (pure b) (throw (corrupt active_binding))
        (λ _. Runs-pure b (λ w p. p)) (λ _. Runs-throw (corrupt active_binding) (λ w p. p))
  checked_binding-Looks s b d = Runs-pure b (λ w p. p)

  binding_for-Looks : (o : Option StoredPairingState) (d : Disk) → Looks d (binding_for x o)
  unfolding Looks
  binding_for-Looks none d = Runs-pure none (λ w p. p)
  binding_for-Looks (some (activating a)) d = Runs-pure none (λ w p. p)
  binding_for-Looks (some s) d =
      Runs-bind _ _
        (Runs-mono (load_active_binding-Runs x d) (λ w p. p) (λ _ w p. p.0) (λ _ w p. p))
        λ b. checked_binding-Looks s b d

  or_throw-Looks : {A : Type 0} (o : Option A) (e : Error) (d : Disk) → Looks d (or_throw o e)
  unfolding Looks
  or_throw-Looks none e d = Runs-throw e (λ w p. p)
  or_throw-Looks (some a) e d = Runs-pure a (λ w p. p)

  current_binding-Looks : (d : Disk) → Looks d (current_binding x)
  unfolding current_binding Looks
  current_binding-Looks d =
      Runs-bind _ _ (Runs-mono (load_state-Runs x d) (λ w p. p) (λ _ w p. p.0) (λ _ w p. p))
        λ o. binding_for-Looks o d

  -- The secret that is read is the stored token.
  read_secret-Runs :
      (d : Disk)
      → Runs (At d) read_secret (λ t w. At d w × (d.credential_file ≡ some t)) (λ _. At d)
  unfolding read_secret
  read_secret-Runs d =
      Runs-bind _ _ (Runs-mono (read-Runs credential d) (λ w p. p) (λ _ w p. p) (λ _ w p. p.0))
        λ t. Runs-bind _ _ (Runs-lifted _ (λ e w p. p.0)) λ _. Runs-pure t (λ w p. p)

  StoredToken : Disk → Option Text → World → Type 0
  StoredToken d none w = At d w
  StoredToken d (some t) w = At d w × (d.credential_file ≡ some t)

  snapshot_of-Runs :
      (b : ActiveBinding) (id : Text) (d : Disk) (o : Option Text)
      → Runs (StoredToken d o) (snapshot_of x b id o) (λ o w. At d w × Secret d o) (λ _. At d)
  unfolding StoredToken Secret
  snapshot_of-Runs b id d none = Runs-pure none (λ w p. (p, tt))
  snapshot_of-Runs b id d (some t) = Runs-pure _ (λ w p. p)

  load_authorized-Runs :
      (d : Disk) → Runs (At d) (load_authorized x) (λ o w. At d w × Secret d o) (λ _. At d)
  unfolding load_authorized StoredToken Looks
  load_authorized-Runs d = Runs-bind _ _ (current_binding-Looks d) λ b.
      Runs-bind _ _ (or_throw-Looks b _ d) λ b'. Runs-bind _ _ (from_state-Looks d) λ id.
        Runs-bind _ _ (Runs-lifted _ (λ e w p. p)) λ expected.
          Runs-bind _ _ (Runs-lifted _ (λ e w p. p)) λ _.
            Runs-bind _ _ (found-Runs read_secret d (StoredToken d) (read_secret-Runs d) (λ w p. p))
              λ o. snapshot_of-Runs b' id d o

  load_credential-Runs :
      (d : Disk) → Runs (At d) (load_credential x) (λ o w. At d w × Secret d o) (λ _. At d)
  unfolding load_credential Secret
  load_credential-Runs d =
      Runs-bind _ _ (Runs-mono (load_auth_state-Runs x d) (λ w p. p) (λ _ w p. p.0) (λ _ w p. p))
        λ auth.
          Runs-if (is_authorized auth) (load_authorized x) (pure none) (λ _. load_authorized-Runs d)
            (λ _. Runs-pure none (λ w p. (p, tt)))

module _ (x : Platform) (details : Text → HostIdentity) where
  -- The reporter has the stored token.
  Holds : Disk → ClientConfig → Option Reporter → Type 0
  Holds d config none = Unit
  Holds d config (some r) = (d.credential_file ≡ some r.token) × (r.endpoint ≡ config.endpoint)

  Built : Disk → ClientConfig → Reporter → World → Type 0
  Built d config r w = At d w × (d.credential_file ≡ some r.token) × (r.endpoint ≡ config.endpoint)

  build_reporter-Runs :
      (config : ClientConfig) (c : CredentialSnapshot) (d : Disk)
      → d.credential_file ≡ some c.secret
      → Runs (At d) (build_reporter x details config c) (Built d config) (λ _. At d)
  unfolding build_reporter verified_reporter Built
  build_reporter-Runs config c d h =
      Runs-if (is_empty (trim c.secret)) (throw (rejected empty_token))
        (verified_reporter x details config c) (λ _. Runs-throw (rejected empty_token) (λ w p. p))
        λ _.
          Runs-bind _ _ (Runs-lifted _ (λ e w p. p)) λ same.
            Runs-bind _ _ (Runs-lifted _ (λ e w p. p)) λ _. Runs-pure _ (λ w p. (p, h, refl))

  with_credential-Runs :
      (config : ClientConfig) (o : Option CredentialSnapshot) (d : Disk)
      → Runs
          (λ w. At d w × Secret x d o)
          (with_credential x details config o)
          (λ r w. At d w × Holds d config r)
          (λ _. At d)
  unfolding Secret Holds Built
  with_credential-Runs config none d = Runs-pure none (λ w p. (p.0, tt))
  with_credential-Runs config (some c) d = Runs-when λ h.
      Runs-if (x.client_builds config) (build_reporter x details config c >>= λ r. pure (some r))
        (throw (rejected client_unavailable))
        (λ _.
          Runs-bind _ _ (build_reporter-Runs config c d h)
            λ r. Runs-pure (some r) (λ w p. (p.0, (p.1, p.2))))
        (λ _. Runs-throw (rejected client_unavailable) (λ w p. p))

  for_existing_credential-Runs :
      (config : ClientConfig) (d : Disk)
      → Runs
          (At d)
          (for_existing_credential x details config)
          (λ r w. At d w × Holds d config r)
          (λ _. At d)
  unfolding for_existing_credential
  for_existing_credential-Runs config d =
      Runs-bind _ _ (load_credential-Runs x d) λ o. with_credential-Runs config o d

  module _ (laws : PlatformLaws x) (P : Text → Text → Type 0) where
    -- The reporter sends its token to the endpoint that the token was generated for.
    abbrev pub Owned : Option ReporterSnapshot → Type 0
    Owned none = Unit
    Owned (some s) = P s.reporter.token s.reporter.endpoint

    abbrev pub Gives : Disk → Exec (Option ReporterSnapshot) → Type 0
    Gives d m = Runs (At d) m (λ o w. At d w × Owned o) (λ _. At d)

    with_reporter-Owned :
        (config : ClientConfig) (host : HostIdentity) (b : ActiveBinding) (d : Disk)
        → FilesBound x laws P d
        → stored_binding x d ≡ some b
        → (o : Option Reporter) → Holds d (apply_active_config config b.report_endpoint) o
        → Owned (with_reporter x details host b o)
    unfolding Holds apply_active_config
    with_reporter-Owned config host b d f e none h = tt
    with_reporter-Owned config host b d f e (some r) h =
        subst (P r.token) (sym h.1) (f r.token b h.0 e)

    pub reporter_for_active_binding-Gives :
        (config : ClientConfig) (b : ActiveBinding) (d : Disk)
        → FilesBound x laws P d
        → stored_binding x d ≡ some b
        → Gives d (reporter_for_active_binding x details config b)
    unfolding reporter_for_active_binding load_host_identity Looks
    reporter_for_active_binding-Gives config b d f e =
        Runs-bind _ _ (Runs-bind _ _ (from_state-Looks x d) λ id. Runs-pure _ (λ w p. p)) λ host.
          Runs-bind _ _ (Runs-lifted _ (λ e w p. p)) λ mine.
            Runs-bind _ _ (Runs-lifted _ (λ e w p. p)) λ bound.
              Runs-bind _ _ (Runs-lifted _ (λ e w p. p)) λ _.
                Runs-bind _ _ (for_existing_credential-Runs _ d)
                  λ r. Runs-pure _ (λ w p. (p.0, with_reporter-Owned config host b d f e r p.1))

    pub nothing : (d : Disk) → Gives d (pure none)
    nothing d = Runs-pure none (λ w p. (p, tt))

    pub fails : (d : Disk) (e : Error) → Gives d (throw e)
    fails d e = Runs-throw e (λ w p. p)

    pub refresh_bound-Gives :
        (config : ClientConfig) (revision : Revision) (s : StoredPairingState) (d : Disk)
        → FilesBound x laws P d
        → (o : Option ActiveBinding) → stored_binding x d ≡ o
        → Gives d (refresh_bound x details config revision s o)
    refresh_bound-Gives config revision s d f none e = fails d (corrupt active_binding)
    refresh_bound-Gives config revision s d f (some b) e =
        Runs-if (agrees x details s b) (unless_current x details config revision b)
          (throw (corrupt active_binding))
          (λ _.
            Runs-if (b.generation == revision.0 && b.request_id == revision.1) (pure none)
              (reporter_for_active_binding x details config b) (λ _. nothing d)
              (λ _. reporter_for_active_binding-Gives config b d f e))
          (λ _. fails d (corrupt active_binding))

    pub load_bound-Gives :
        (d : Disk) (k : Option ActiveBinding → Exec (Option ReporterSnapshot))
        → ((o : Option ActiveBinding) → stored_binding x d ≡ o → Gives d (k o))
        → Gives d (load_active_binding x >>= k)
    load_bound-Gives d k h = Runs-bind _ _ (load_active_binding-Runs x d) λ o. Runs-when λ e. h o e

    -- A directory without a commit, behind the check of the authorization.
    pub when_authorized-Gives :
        (d : Disk) (k : Option StoredPairingState → Exec (Option ReporterSnapshot))
        → ((o : Option StoredPairingState) → stored_state x d ≡ o → Gives d (k o))
        → Gives d (
            load_auth_state x >>= λ auth.
            if is_authorized auth then (load_state x >>= k) else pure none)
    when_authorized-Gives d k h =
        Runs-bind _ _ (Runs-mono (load_auth_state-Runs x d) (λ w p. p) (λ _ w p. p.0) (λ _ w p. p))
          λ auth.
            Runs-if (is_authorized auth) (load_state x >>= k) (pure none)
              (λ _. Runs-bind _ _ (load_state-Runs x d) λ o. Runs-when λ e. h o e) (λ _. nothing d)
