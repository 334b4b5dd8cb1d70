-- ===== src/Pairing/Credentials/Clean.antt =====
-- The commit with no fault ahead: src/pairing/commit_flow.rs.
use host_monitoring_client.Common.{◌≡◌, refl, true, false, ◌&&◌, some, arith, leb, ◌==◌}
use host_monitoring_client.Common.Text.{Text, trim, byte_len}
use host_monitoring_client.Error.{rejected, rotation_not_published}
use host_monitoring_client.Exec.{World, ok, pure, ◌>>=◌}
use host_monitoring_client.Exec.Runs.{
  Runs, Runs-pure, Runs-bind, Runs-bind-lift, Runs-given, Runs-utc_now, Clean,
}
use host_monitoring_client.StateFiles.{
  Disk, identity, credential, pairing, authorization, binding, max_bytes,
}
use host_monitoring_client.StateStore.{over_budget}
use host_monitoring_client.StateStore.Laws.{write-Runs-Clean}
use host_monitoring_client.Pairing.State.{
  Time, Activating, PairingProgress, active_progress, active, activating, progress_from_terminal,
  generation_of,
}
use host_monitoring_client.Pairing.Platform.{Platform, PlatformLaws}
use host_monitoring_client.Pairing.Identity.{is_token, validate_current_token-token}
use host_monitoring_client.Pairing.Documents.{validate_active_binding, validate_state_version-ok}
use host_monitoring_client.Pairing.Documents.Laws.{
  load_state-Runs-Clean, persist_state-Runs-Clean, persist_auth_state-Runs-Clean,
  persist_active_binding-Runs-Clean,
}
use host_monitoring_client.Pairing.Documents.Printed.{decode-printed_state, decode_state-generation}
use host_monitoring_client.Pairing.Documents.{decode_state, load_state}
use host_monitoring_client.Pairing.Credentials.{
  commit_activating, replace, finish_activating, or_throw, binding_of_journal, active_of_journal,
  authorized_at,
}
use host_monitoring_client.Pairing.Credentials.Recovery.{committed, committed-journal}

-- The journal can be committed: its instance and request ids and its report endpoint are valid, its token has
-- the current form, and each file of the commit fits its budget at every time.
pub record IsStorable (x : Platform) (a : Activating) : Type 0 where
  pub binding_valid : validate_active_binding x (binding_of_journal a) ≡ ok tt
  pub token_valid : is_token a.bearer_secret ≡ true
  pub credential_fits : over_budget credential (trim a.bearer_secret) ≡ false
  pub identity_fits : over_budget identity (trim (x.uuid_to_text a.instance_id)) ≡ false
  pub binding_fits : over_budget binding (trim (x.binding_to_json (binding_of_journal a))) ≡ false
  pub auth_fits :
      (t : Time) → over_budget authorization (trim (x.auth_to_json (authorized_at t))) ≡ false
  pub active_fits :
      (t : Time)
      → over_budget pairing (trim (x.state_to_json (active (active_of_journal a t)))) ≡ false
  pub active_readable :
      (t : Time)
      → leb (byte_len (trim (x.state_to_json (active (active_of_journal a t))))) (max_bytes pairing)
        ≡ true

abbrev pub progress : Activating → PairingProgress
progress a = active_progress a.generation a.request_id a.instance_id a.report_endpoint

module _ (x : Platform) (laws : PlatformLaws x) (a : Activating) where
  -- The state that the commit ends with is read back, if the journal was read.
  pub active_decoded :
      (t : Text) (u : Time)
      → decode_state x t ≡ ok (activating a)
      → decode_state x (trim (x.state_to_json (active (active_of_journal a u))))
        ≡ ok (active (active_of_journal a u))
  unfolding generation_of active_of_journal
  active_decoded t u h =
      decode-printed_state x laws (active (active_of_journal a u))
        (decode_state-generation x t (activating a) h)

module _ (x : Platform) (laws : PlatformLaws x) (a : Activating) (s : IsStorable x a) where
  abbrev pub Whole : Disk → PairingProgress → World → Type 0
  Whole d p w = (p ≡ progress a) × ((t : Time) × (u : Time) × Clean (committed x a t u d) w)

  commit_activating-Runs-Clean :
      (d : Disk) → Runs (Clean d) (commit_activating x a) (Whole d) (λ _ _. ⊥)
  unfolding commit_activating committed
  commit_activating-Runs-Clean d =
      Runs-bind-lift _ _
        (λ _ _.
          Runs-bind-lift _ _
            (λ _ _.
              Runs-bind-lift _ _
                (λ _ _.
                  Runs-bind _ _ (write-Runs-Clean credential a.bearer_secret d s.credential_fits)
                    λ _. Runs-bind _ _ (write-Runs-Clean identity _ _ s.identity_fits) λ _.
                      Runs-bind _ _
                        (persist_active_binding-Runs-Clean x (binding_of_journal a) _
                          s.binding_valid s.binding_fits)
                        λ _. Runs-bind _ _ Runs-utc_now λ t.
                          Runs-bind _ _
                            (persist_auth_state-Runs-Clean x (authorized_at t) _ (s.auth_fits t))
                            λ _. Runs-bind _ _ Runs-utc_now λ u.
                              Runs-bind _ _
                                (persist_state-Runs-Clean x (active (active_of_journal a u)) _
                                  (s.active_fits u))
                                λ _. Runs-pure _ (λ w p. (refl, (t, u, p))))
                (λ e h w p. cc (validate_current_token-token a.bearer_secret s.token_valid)))
            (λ e h w p. cc s.binding_valid))
        (λ e h w p. cc (validate_state_version-ok a.version))

  replace-Runs-Clean :
      (d : Disk) (t : Text)
      → d.pairing_file ≡ some t
      → leb (byte_len t) (max_bytes pairing) ≡ true
      → decode_state x t ≡ ok (activating a)
      → Runs
          (Clean d)
          (replace x (activating a))
          (λ _ w. (t : Time) × (u : Time) × Clean (committed x a t u d) w)
          (λ _ _. ⊥)
  unfolding replace
  replace-Runs-Clean d t file fits read_back =
      Runs-bind _ _ (load_state-Runs-Clean x d t (activating a) file fits read_back) λ o.
        Runs-given λ e. rw e (
          rw (same a)
            (Runs-bind _ _ (commit_activating-Runs-Clean d) (λ p. Runs-pure tt (λ w q. q.1))))
    where
      same :
          (a : Activating) → (a.generation == a.generation && a.request_id == a.request_id) ≡ true
      same a = ground arith

  reported : (u : Time) → progress_from_terminal (active (active_of_journal a u)) ≡ progress a
  unfolding progress_from_terminal active_of_journal
  reported u = refl

  -- With no fault ahead `finish_activating` completes the commit and reports it.
  pub finish_activating-Runs-Clean :
      (d : Disk) (t : Text)
      → d.pairing_file ≡ some t
      → leb (byte_len t) (max_bytes pairing) ≡ true
      → decode_state x t ≡ ok (activating a)
      → Runs (Clean d) (finish_activating x (activating a)) (Whole d) (λ _ _. ⊥)
  unfolding finish_activating
  finish_activating-Runs-Clean d t₀ file fits read_back =
      Runs-bind _ _ (replace-Runs-Clean d t₀ file fits read_back)
        λ _. record { at = λ w p. (published p.0 p.1).at w p.2 }
    where
      published :
          (t u : Time)
          → Runs
              (Clean (committed x a t u d))
              (load_state x >>= λ o. or_throw o (rejected rotation_not_published) >>= λ s.
                pure (progress_from_terminal s))
              (Whole d)
              (λ _ _. ⊥)
      published t u =
          Runs-bind _ _
            (load_state-Runs-Clean x (committed x a t u d) _ (active (active_of_journal a u))
              (committed-journal x a t u d) (s.active_readable u)
              (active_decoded x laws a t₀ u read_back))
            λ o. Runs-given λ e. rw e (
              Runs-bind
                {Q = λ r w. (r ≡ active (active_of_journal a u)) × Clean (committed x a t u d) w} _
                _ (Runs-pure _ (λ w p. (refl, p)))
                (λ r. Runs-given λ e. rw e (Runs-pure _ (λ w p. (reported u, (t, u, p))))))
