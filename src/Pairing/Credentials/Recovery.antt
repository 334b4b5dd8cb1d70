-- ===== src/Pairing/Credentials/Recovery.antt =====
-- Crash recovery of the commit: src/pairing/commit_flow.rs.
use host_monitoring_client.Common.{
  ◌≡◌, refl, ap, subst, sym, ◌∙◌, ◌⊎◌, inl, inr, true, Option, none, some, arith,
}
use host_monitoring_client.Common.Text.{trim}
use host_monitoring_client.Error.{Error, superseded, rejected, rotation_not_published}
use host_monitoring_client.Exec.{World, Exec, Result, ok, err, pure, ◌>>=◌}
use host_monitoring_client.Exec.Runs.{
  Runs, Post, Runs-pure, Runs-throw, Runs-bind, Runs-bind-lift, Runs-mono, Runs-when, Runs-if,
  Runs-at, Runs-utc_now,
}
use host_monitoring_client.StateFiles.{
  Disk, put, identity, credential, pairing, authorization, binding,
}
use host_monitoring_client.StateStore.Laws.{At, write-Runs}
use host_monitoring_client.Pairing.State.{
  Time, PairingProgress, StoredPairingState, Activating, active, activating, progress_from_terminal,
}
use host_monitoring_client.Pairing.Platform.{Platform}
use host_monitoring_client.Pairing.Identity.{
  is_token, validate_current_token, validate_current_token-ok,
}
use host_monitoring_client.Pairing.Documents.Laws.{
  stored_state, load_state-Runs, persist_state-Runs, persist_auth_state-Runs,
  persist_active_binding-Runs,
}
use host_monitoring_client.Pairing.Credentials.{
  commit_activating, replace_current, replace, finish_activating, or_throw, binding_of_journal,
  active_of_journal, authorized_at,
}

-- Two directories with one journal, that differ at most in the files that a commit replaces.
pub record Agrees (d e : Disk) : Type 0 where
  pub same_journal : e.pairing_file ≡ d.pairing_file
  pub same_archives : e.archives ≡ d.archives
  pub same_present : e.present ≡ d.present

pub Agrees-refl : {d e : Disk} → e ≡ d → Agrees d e
Agrees-refl h = record {
  same_journal = ap (λ (e : Disk). e.pairing_file) h;
  same_archives = ap (λ (e : Disk). e.archives) h;
  same_present = ap (λ (e : Disk). e.present) h;
}

pub Agrees-trans : {d e f : Disk} → Agrees d e → Agrees e f → Agrees d f
Agrees-trans h k = record {
  same_journal = k.same_journal ∙ h.same_journal;
  same_archives = k.same_archives ∙ h.same_archives;
  same_present = k.same_present ∙ h.same_present;
}

-- An error left the journal as it was, or came after the last write.
abbrev pub Kept : (Disk → Type 0) → Disk → Error → World → Type 0
Kept C d e w = Agrees d w.disk ⊎ C w.disk

-- The write of a file other than the journal, and the rest after it.
then_rest :
    {A B : Type 0} {R : B → World → Type 0} (C : Disk → Type 0) (d e e' : Disk) {m : Exec A}
    {f : A → Exec B}
    → Agrees d e
    → Runs (At e) m (λ _. At e') (λ _ w. At e w ⊎ At e' w)
    → Agrees e e'
    → ((a : A) → Runs (At e') (f a) R (Kept C d))
    → Runs (At e) (m >>= f) R (Kept C d)
then_rest C d e e' {m} {f} first h same k =
    Runs-bind m f (Runs-mono h (λ w p. p) (λ a w p. p) (λ _ w p. inl (either w p))) k
  where
    either : (w : World) → (At e w ⊎ At e' w) → Agrees d w.disk
    either w (inl p) = Agrees-trans first (Agrees-refl p)
    either w (inr p) = Agrees-trans first (Agrees-trans same (Agrees-refl p))

module _ (x : Platform) (a : Activating) where
  credential_written : Disk → Disk
  credential_written d = put credential (some (trim a.bearer_secret)) d

  identity_written : Disk → Disk
  unfolding credential_written
  identity_written d =
      put identity (some (trim (x.uuid_to_text a.instance_id))) (credential_written d)

  binding_written : Disk → Disk
  unfolding identity_written
  binding_written d =
      put binding (some (trim (x.binding_to_json (binding_of_journal a)))) (identity_written d)

  authorization_written : Time → Disk → Disk
  unfolding binding_written
  authorization_written t d =
      put authorization (some (trim (x.auth_to_json (authorized_at t)))) (binding_written d)

  -- The directory after the whole commit of the journal `a`, at the times that it recorded.
  unfoldable pub committed : Time → Time → Disk → Disk
  unfolding authorization_written
  committed t u d =
      put pairing (some (trim (x.state_to_json (active (active_of_journal a u)))))
        (authorization_written t d)

  -- The commit is whole; only a current token is committed.
  abbrev pub IsCommitted : Disk → Disk → Type 0
  IsCommitted d e =
      (is_token a.bearer_secret ≡ true) × ((t : Time) × (u : Time) × (e ≡ committed t u d))

  pub commit_activating-Runs :
      (d : Disk)
      → Runs (At d) (commit_activating x a) (λ _ w. IsCommitted d w.disk) (Kept (IsCommitted d) d)
  unfolding commit_activating committed
  commit_activating-Runs d =
      let c : Disk → Type 0 = IsCommitted d in
      Runs-bind-lift _ _
        (λ _ _.
          Runs-bind-lift _ _
            (λ _ _.
              Runs-bind-lift _ _
                (λ u valid.
                  let token = token_of u valid in
                  then_rest c d d (credential_written d) here (write-Runs credential _ d)
                    (record { same_journal = refl; same_archives = refl; same_present = refl })
                    λ _.
                      then_rest c d (credential_written d) (identity_written d)
                        (record { same_journal = refl; same_archives = refl; same_present = refl })
                        (write-Runs identity _ _)
                        (record { same_journal = refl; same_archives = refl; same_present = refl })
                        λ _.
                          then_rest c d (identity_written d) (binding_written d)
                            (record {
                              same_journal = refl;
                              same_archives = refl;
                              same_present = refl;
                            })
                            (persist_active_binding-Runs x (binding_of_journal a) _)
                            (record {
                              same_journal = refl;
                              same_archives = refl;
                              same_present = refl;
                            })
                            λ _. Runs-bind _ _ Runs-utc_now λ t.
                              then_rest c d (binding_written d) (authorization_written t d)
                                (record {
                                  same_journal = refl;
                                  same_archives = refl;
                                  same_present = refl;
                                })
                                (persist_auth_state-Runs x (authorized_at t) _)
                                (record {
                                  same_journal = refl;
                                  same_archives = refl;
                                  same_present = refl;
                                })
                                λ _. Runs-bind _ _ Runs-utc_now λ u.
                                  Runs-bind _ _
                                    (Runs-mono
                                      (persist_state-Runs x (active (active_of_journal a u)) _)
                                      (λ w p. p) (λ _ w p. p) (λ _ w p. last token t u w p))
                                    (λ _. Runs-pure _ (λ w p. (token, (t, u, p)))))
                (same _))
            (same _))
        (same _)
    where
      here : Agrees d d
      here = Agrees-refl refl

      token_of :
          (u : Unit {0})
          → validate_current_token a.bearer_secret ≡ ok u
          → is_token a.bearer_secret ≡ true
      token_of u h = validate_current_token-ok a.bearer_secret h

      same :
          (r : Result Unit) (e : Error)
          → r ≡ err e
          → (w : World) → At d w
          → Kept (IsCommitted d) d e w
      same r e h w p = inl (Agrees-refl p)

      last :
          (token : is_token a.bearer_secret ≡ true) (t u : Time) (w : World)
          → (At (authorization_written t d) w ⊎ At (committed t u d) w)
          → Kept (IsCommitted d) d superseded w
      last token t u w (inl p) = inl (
          Agrees-trans (record { same_journal = refl; same_archives = refl; same_present = refl })
            (Agrees-refl p))
      last token t u w (inr p) = inr (token, (t, u, p))

  -- However a commit ends, it is one step: when it succeeds, every file is that of the journal; when it
  -- fails, the journal is still there with only files of the commit replaced, or the commit is whole.
  pub commit_activating-IsCommitted :
      (w : World)
      → Post
          (λ _ v. IsCommitted w.disk v.disk)
          (Kept (IsCommitted w.disk) w.disk)
          (commit_activating x a w)
  commit_activating-IsCommitted w = (commit_activating-Runs w.disk).at w refl

  replace_current-Runs :
      (d : Disk) (r : Activating)
      → Runs
          (At d)
          (replace_current x r (some (activating a)))
          (λ _ w. IsCommitted d w.disk)
          (Kept (IsCommitted d) d)
  replace_current-Runs d r =
      Runs-if _ _ _ (λ _. Runs-bind _ _ (commit_activating-Runs d) (λ _. Runs-pure tt (λ w p. p)))
        (λ _. Runs-throw superseded (λ w p. inl (Agrees-refl p)))

  replace-Runs :
      (d : Disk)
      → stored_state x d ≡ some (activating a)
      → (r : Activating)
      → Runs
          (At d)
          (replace x (activating r))
          (λ _ w. IsCommitted d w.disk)
          (Kept (IsCommitted d) d)
  unfolding replace
  replace-Runs d h r =
      Runs-bind _ _
        (Runs-mono (load_state-Runs x d) (λ w p. p) (λ o w p. p) (λ _ w p. inl (Agrees-refl p)))
        λ o. Runs-when λ e. rw (sym e ∙ h) (replace_current-Runs d r)

  -- The same of `finish_activating`, for whichever copy of the journal the caller holds.
  pub finish_activating-Runs :
      (d : Disk)
      → stored_state x d ≡ some (activating a)
      → (r : Activating)
      → Runs
          (At d)
          (finish_activating x (activating r))
          (λ _ w. IsCommitted d w.disk)
          (Kept (IsCommitted d) d)
  unfolding finish_activating
  finish_activating-Runs d h r = Runs-bind _ _ (replace-Runs d h r) λ _. Runs-at λ e c.
      Runs-bind _ _
        (Runs-mono (load_state-Runs x e) (λ w p. p) (λ o w p. p)
          (λ _ w p. inr (subst (IsCommitted d) (sym p) c)))
        λ o. publish e c o
    where
      publish :
          (e : Disk)
          → IsCommitted d e
          → (o : Option StoredPairingState)
          → Runs
              (λ w. At e w × (stored_state x e ≡ o))
              (or_throw o (rejected rotation_not_published) >>= λ s.
                pure (progress_from_terminal s))
              (λ _ w. IsCommitted d w.disk)
              (Kept (IsCommitted d) d)
      publish e c none =
          Runs-bind {Q = λ _ w. IsCommitted d w.disk} _ _
            (Runs-throw (rejected rotation_not_published)
              (λ w p. inr (subst (IsCommitted d) (sym p.0) c)))
            (λ s. Runs-pure (progress_from_terminal s) (λ w p. p))
      publish e c (some s) =
          Runs-bind {Q = λ _ w. IsCommitted d w.disk} _ _
            (Runs-pure s (λ w p. subst (IsCommitted d) (sym p.0) c))
            (λ s. Runs-pure (progress_from_terminal s) (λ w p. p))

-- A journal that cannot be read is not committed.
pub unreadable-Runs :
    (x : Platform) (d : Disk)
    → stored_state x d ≡ none
    → (r : Activating) {A : PairingProgress → World → Type 0} {E : World → Type 0}
    → ((w : World) → At d w → E w)
    → Runs (At d) (finish_activating x (activating r)) A (λ _. E)
unfolding finish_activating replace
unreadable-Runs x d h r k =
    Runs-bind {Q = λ _ _. ⊥} _ _
      (Runs-bind _ _ (Runs-mono (load_state-Runs x d) (λ w p. p) (λ o w p. p) (λ _ w p. k w p))
        λ o. Runs-when λ e. rw (sym e ∙ h) (Runs-throw superseded (λ w p. k w p)))
      (λ _. record { at = λ w p. absurd p })

-- From directories with one journal the commit leads to one result.
pub committed-Agrees :
    (x : Platform) (a : Activating) (t u : Time) (d e : Disk)
    → Agrees d e
    → committed x a t u e ≡ committed x a t u d
unfolding committed
committed-Agrees x a t u d e h = ground (arith, h.same_archives, h.same_present)

pub committed-journal :
    (x : Platform) (a : Activating) (t u : Time) (d : Disk)
    → (committed x a t u d).pairing_file
      ≡ some (trim (x.state_to_json (active (active_of_journal a u))))
unfolding committed
committed-journal x a t u d = refl
