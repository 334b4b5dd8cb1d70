-- ===== src/Pairing/Origin/Snapshots.antt =====
-- The snapshots that the reporting loop runs with: src/pairing/local.rs.
use host_monitoring_client.Common.{◌≡◌, subst, sym, inl, Option, none, some, arith, if◌then◌else◌}
use host_monitoring_client.Common.Text.{Text}
use host_monitoring_client.Config.{ClientConfig}
use host_monitoring_client.Error.{corrupt, active_binding}
use host_monitoring_client.Exec.{World, Exec, ◌>>=◌, pure}
use host_monitoring_client.Exec.Runs.{Runs, Post, Runs-bind, Runs-mono, Runs-when, Runs-if, Runs-at}
use host_monitoring_client.StateFiles.{Disk}
use host_monitoring_client.StateStore.Laws.{At}
use host_monitoring_client.Pairing.State.{
  StoredPairingState, creating, pending, activating, active, denied, expired, Activating,
  HostIdentity, ActiveBinding,
}
use host_monitoring_client.Pairing.Platform.{Platform, PlatformLaws}
use host_monitoring_client.Pairing.Documents.{
  binding_of_active, load_active_binding, load_auth_state,
}
use host_monitoring_client.Pairing.Documents.Laws.{
  stored_state, stored_binding, load_state-Runs, load_auth_state-Runs,
}
use host_monitoring_client.Pairing.Credentials.{Revision, is_authorized}
use host_monitoring_client.Pairing.Compare.Laws.{load_current_active_binding-Runs}
use host_monitoring_client.Pairing.Local.{
  ReporterSnapshot, refresh_from, refresh_reporter_snapshot, snapshot_from, current_snapshot,
  previous_bound, previous_reporter, existing_from, existing_reporter_for_run,
  reporter_snapshot_for_current_active_state, refresh_bound,
}
use host_monitoring_client.Pairing.Origin.{
  FilesBound, Bound, Always, begin-Bound, finish_activating-Settled, Bound-Settled,
}
use host_monitoring_client.Pairing.Origin.Start.{journal_bound}
use host_monitoring_client.Pairing.Origin.Reporter.{
  Owned, Gives, nothing, fails, refresh_bound-Gives, load_bound-Gives, when_authorized-Gives,
  reporter_for_active_binding-Gives,
}

module _ (x : Platform) (details : Text → HostIdentity) (laws : PlatformLaws x)
    (P : Text → Text → Type 0) (config : ClientConfig) where
  -- Every end keeps the tokens bound, and the reporter has a token of its own endpoint.
  abbrev pub Snapshot : Option ReporterSnapshot → World → Type 0
  Snapshot o w = Owned x details laws P o × Bound x laws P w.disk

  settled_files :
      (d : Disk) (o : Option StoredPairingState)
      → stored_state x d ≡ o
      → ((a : Activating) → o ≡ some (activating a) → ⊥)
      → Bound x laws P d
      → FilesBound x laws P d
  settled_files d o e h b = (Bound-Settled x laws P d o e h b).1

  refresh_some-Gives :
      (revision : Revision) (s : StoredPairingState) (d : Disk)
      → FilesBound x laws P d
      → Gives x details laws P d
          (load_active_binding x >>= refresh_bound x details config revision s)
  refresh_some-Gives revision s d f =
      load_bound-Gives x details laws P d (refresh_bound x details config revision s)
        (λ o e. refresh_bound-Gives x details laws P config revision s d f o e)

  refresh_from-Gives :
      (revision : Revision) (d : Disk)
      → Bound x laws P d
      → (o : Option StoredPairingState) → stored_state x d ≡ o
      → Gives x details laws P d (refresh_from x details config revision o)
  refresh_from-Gives revision d b none e = nothing x details laws P d
  refresh_from-Gives revision d b (some (activating a)) e = nothing x details laws P d
  refresh_from-Gives revision d b (some (creating c)) e =
      refresh_some-Gives revision (creating c) d
        (settled_files d (some (creating c)) e (λ a h. ground (arith, h)) b)
  refresh_from-Gives revision d b (some (pending c)) e =
      refresh_some-Gives revision (pending c) d
        (settled_files d (some (pending c)) e (λ a h. ground (arith, h)) b)
  refresh_from-Gives revision d b (some (active c)) e =
      refresh_some-Gives revision (active c) d
        (settled_files d (some (active c)) e (λ a h. ground (arith, h)) b)
  refresh_from-Gives revision d b (some (denied c)) e =
      refresh_some-Gives revision (denied c) d
        (settled_files d (some (denied c)) e (λ a h. ground (arith, h)) b)
  refresh_from-Gives revision d b (some (expired c)) e =
      refresh_some-Gives revision (expired c) d
        (settled_files d (some (expired c)) e (λ a h. ground (arith, h)) b)

  -- What holds of the directory that was looked at holds of the directory at the end.
  ends :
      (d : Disk) {m : Exec (Option ReporterSnapshot)}
      → Bound x laws P d
      → Gives x details laws P d m
      → Runs (At d) m Snapshot (Always x laws P)
  ends d b h =
      Runs-mono h (λ w p. p) (λ o w p. (p.1, subst (Bound x laws P) (sym p.0) b))
        (λ _ w p. subst (Bound x laws P) (sym p) b)

  refresh_reporter_snapshot-Runs :
      (revision : Revision)
      → Runs
          (λ w. Bound x laws P w.disk)
          (refresh_reporter_snapshot x details config revision)
          Snapshot
          (Always x laws P)
  unfolding refresh_reporter_snapshot
  refresh_reporter_snapshot-Runs revision = Runs-bind _ _ (begin-Bound x laws P) λ _. Runs-at λ d b.
      ends d b (
        when_authorized-Gives x details laws P d (refresh_from x details config revision)
          (λ o e. refresh_from-Gives revision d b o e))

  snapshot_from-Gives :
      (d : Disk)
      → Bound x laws P d
      → (o : Option StoredPairingState) → stored_state x d ≡ o
      → Gives x details laws P d (snapshot_from x details config o)
  snapshot_from-Gives d b (some (active s)) e =
      Runs-bind _ _ (load_current_active_binding-Runs x (binding_of_active s) d) λ c. Runs-when λ h.
        reporter_for_active_binding-Gives x details laws P config c d
          (settled_files d (some (active s)) e (λ a k. ground (arith, k)) b) h
  snapshot_from-Gives d b o e = nothing x details laws P d

  current_snapshot-Owned :
      Runs
        (λ w. Bound x laws P w.disk)
        (current_snapshot x details config)
        Snapshot
        (Always x laws P)
  unfolding current_snapshot
  current_snapshot-Owned = Runs-at λ d b. ends d b (
      when_authorized-Gives x details laws P d (snapshot_from x details config)
        (λ o e. snapshot_from-Gives d b o e))

  reporter_snapshot_for_current_active_state-Runs :
      Runs
        (λ w. Bound x laws P w.disk)
        (reporter_snapshot_for_current_active_state x details config)
        Snapshot
        (Always x laws P)
  unfolding reporter_snapshot_for_current_active_state
  reporter_snapshot_for_current_active_state-Runs =
      Runs-bind _ _ (begin-Bound x laws P) λ _. current_snapshot-Owned

  previous_bound-Gives :
      (d : Disk)
      → FilesBound x laws P d
      → (o : Option ActiveBinding) → stored_binding x d ≡ o
      → Gives x details laws P d (previous_bound x details config o)
  previous_bound-Gives d f none e = fails x details laws P d (corrupt active_binding)
  previous_bound-Gives d f (some b) e =
      reporter_for_active_binding-Gives x details laws P config b d f e

  previous_reporter-Gives :
      (d : Disk)
      → FilesBound x laws P d
      → (o : Option StoredPairingState)
      → Gives x details laws P d (previous_reporter x details config o)
  previous_reporter-Gives d f none = nothing x details laws P d
  previous_reporter-Gives d f (some (active s)) = nothing x details laws P d
  previous_reporter-Gives d f (some s) =
      load_bound-Gives x details laws P d (previous_bound x details config)
        (λ o e. previous_bound-Gives d f o e)

  -- The previous credential, while a request that is no commit is in flight.
  previous-Gives :
      (d : Disk)
      → FilesBound x laws P d
      → (o : Option StoredPairingState)
      → Gives x details laws P d (
          load_auth_state x >>= λ auth.
          if is_authorized auth then previous_reporter x details config o else pure none)
  previous-Gives d f o =
      Runs-bind _ _ (Runs-mono (load_auth_state-Runs x d) (λ w p. p) (λ _ w p. p.0) (λ _ w p. p))
        λ auth.
          Runs-if (is_authorized auth) (previous_reporter x details config o) (pure none)
            (λ _. previous_reporter-Gives d f o) (λ _. nothing x details laws P d)

  existing_from-Owned :
      (d : Disk)
      → Bound x laws P d
      → (o : Option StoredPairingState) → stored_state x d ≡ o
      → Runs (At d) (existing_from x details config o) Snapshot (Always x laws P)
  existing_from-Owned d b (some (activating a)) e =
      Runs-bind _ _
        (finish_activating-Settled x laws P d a e (journal_bound x laws P d (activating a) e b) a)
        λ _. Runs-mono current_snapshot-Owned (λ w p. inl p) (λ _ w p. p) (λ _ w p. p)
  existing_from-Owned d b none e =
      ends d b (previous-Gives d (settled_files d none e (λ a h. ground (arith, h)) b) none)
  existing_from-Owned d b (some (creating c)) e = ends d b (
      previous-Gives d (settled_files d (some (creating c)) e (λ a h. ground (arith, h)) b)
        (some (creating c)))
  existing_from-Owned d b (some (pending c)) e = ends d b (
      previous-Gives d (settled_files d (some (pending c)) e (λ a h. ground (arith, h)) b)
        (some (pending c)))
  existing_from-Owned d b (some (active c)) e = ends d b (
      previous-Gives d (settled_files d (some (active c)) e (λ a h. ground (arith, h)) b)
        (some (active c)))
  existing_from-Owned d b (some (denied c)) e = ends d b (
      previous-Gives d (settled_files d (some (denied c)) e (λ a h. ground (arith, h)) b)
        (some (denied c)))
  existing_from-Owned d b (some (expired c)) e = ends d b (
      previous-Gives d (settled_files d (some (expired c)) e (λ a h. ground (arith, h)) b)
        (some (expired c)))

  existing_reporter_for_run-Runs :
      Runs
        (λ w. Bound x laws P w.disk)
        (existing_reporter_for_run x details config)
        Snapshot
        (Always x laws P)
  unfolding existing_reporter_for_run
  existing_reporter_for_run-Runs = Runs-bind _ _ (begin-Bound x laws P) λ _. Runs-at λ d b.
      Runs-bind _ _
        (Runs-mono (load_state-Runs x d) (λ w p. p) (λ _ w p. p)
          (λ _ w p. subst (Bound x laws P) (sym p) b))
        λ o. Runs-when λ e. existing_from-Owned d b o e

  -- Before a run: with every token bound to the endpoint that it was generated for, the reporter that
  -- `existing_reporter_for_run` returns has a token that was generated for the endpoint it reports to,
  -- also when an interrupted commit is completed on the way; and however it ends the tokens stay bound.
  pub existing_reporter_for_run-Owned :
      (w : World)
      → Bound x laws P w.disk
      → Post Snapshot (Always x laws P) (existing_reporter_for_run x details config w)
  existing_reporter_for_run-Owned w h = existing_reporter_for_run-Runs.at w h

  -- During a run: the reporter of a refresh has a token of its own endpoint too, whatever request is in
  -- flight; and however the refresh ends the tokens stay bound.
  pub refresh_reporter_snapshot-Owned :
      (revision : Revision) (w : World)
      → Bound x laws P w.disk
      → Post Snapshot (Always x laws P) (refresh_reporter_snapshot x details config revision w)
  refresh_reporter_snapshot-Owned revision w h = (refresh_reporter_snapshot-Runs revision).at w h

  -- The same of the reporter for the active state.
  pub reporter_snapshot_for_current_active_state-Owned :
      (w : World)
      → Bound x laws P w.disk
      → Post Snapshot
          (Always x laws P)
          (reporter_snapshot_for_current_active_state x details config w)
  reporter_snapshot_for_current_active_state-Owned w h =
      reporter_snapshot_for_current_active_state-Runs.at w h
