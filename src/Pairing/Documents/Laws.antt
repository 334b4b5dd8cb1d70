-- ===== src/Pairing/Documents/Laws.antt =====
-- What the loads and writes of the pairing documents do, in terms of what the directory stores.
use host_monitoring_client.Common.{
  ◌≡◌, refl, ap, ◌∙◌, ◌⊎◌, inl, true, false, Option, none, some, arith, leb,
}
use host_monitoring_client.Common.Text.{Text, byte_len, trim}
use host_monitoring_client.Exec.{Result, ok, err, pure, ◌>>=◌}
use host_monitoring_client.Exec.Runs.{
  Runs, Runs-pure, Runs-bind, Runs-bind-lift, Runs-given, Runs-when, Clean,
}
use host_monitoring_client.StateFiles.{
  StateFile, Disk, content, put, pairing, binding, authorization, max_bytes,
}
use host_monitoring_client.StateStore.{found, read, over_budget}
use host_monitoring_client.StateStore.Laws.{
  At, found-read-Runs, found-read-Runs-Clean, write-Runs, write-Runs-Clean,
}
use host_monitoring_client.Pairing.State.{StoredPairingState, ActiveBinding, LocalAuthState}
use host_monitoring_client.Pairing.Platform.{Platform}
use host_monitoring_client.Pairing.Documents.{
  load_found, load_state, load_active_binding, load_auth_state, decode_state, decode_binding,
  decode_auth, persist_state, persist_active_binding, persist_auth_state, validate_active_binding,
}

abbrev pub as_option : {T : Type 0} → Result T → Option T
as_option (ok v) = some v
as_option (err e) = none

abbrev pub decoded : {T : Type 0} → (Text → Result T) → Option Text → Option T
decoded decode none = none
decoded decode (some t) = as_option (decode t)

module _ {T : Type 0} (file : StateFile) (decode : Text → Result T) where
  load_found-Runs :
      (d : Disk) (o : Option Text)
      → Runs
          (λ w. At d w × (content file d ≡ o))
          (load_found decode o)
          (λ v w. At d w × (decoded decode (content file d) ≡ v))
          (λ _. At d)
  load_found-Runs d none = Runs-pure none (λ w p. (p.0, ap (decoded decode) p.1))
  load_found-Runs d (some t) =
      Runs-bind-lift (decode t) (λ v. pure (some v))
        (λ v h. Runs-pure (some v) (λ w p. (p.0, ap (decoded decode) p.1 ∙ ap as_option h)))
        (λ e h w p. p.0)

  -- A load changes nothing, and returns what the file decodes to.
  pub load-Runs :
      (d : Disk)
      → Runs
          (At d)
          (found (read file) >>= load_found decode)
          (λ v w. At d w × (decoded decode (content file d) ≡ v))
          (λ _. At d)
  load-Runs d =
      Runs-bind (found (read file)) (load_found decode) (found-read-Runs file d) (load_found-Runs d)

  -- With no fault ahead, a document within its budget is loaded.
  pub load-Runs-Clean :
      (d : Disk) (t : Text) (v : T)
      → content file d ≡ some t
      → leb (byte_len t) (max_bytes file) ≡ true
      → decode t ≡ ok v
      → Runs
          (Clean d)
          (found (read file) >>= load_found decode)
          (λ o w. (o ≡ some v) × Clean d w)
          (λ _ _. ⊥)
  load-Runs-Clean d t v c fits h =
      Runs-bind (found (read file)) (load_found decode) (found-read-Runs-Clean file d t c fits) λ o.
        Runs-given λ e.
          rw (e, load_found)
            (Runs-bind-lift (decode t) (λ u. pure (some u))
              (λ u hu. Runs-pure (some u) (λ w p. (cc, p))) (λ e he w p. cc))

module _ (x : Platform) where
  -- What the directory stores, as far as it can be decoded.
  abbrev pub stored_state : Disk → Option StoredPairingState
  stored_state d = decoded (decode_state x) d.pairing_file

  abbrev pub stored_binding : Disk → Option ActiveBinding
  stored_binding d = decoded (decode_binding x) d.binding_file

  abbrev pub stored_auth : Disk → Option LocalAuthState
  stored_auth d = decoded (decode_auth x) d.authorization_file

  pub load_state-Runs :
      (d : Disk) → Runs (At d) (load_state x) (λ o w. At d w × (stored_state d ≡ o)) (λ _. At d)
  unfolding load_state
  load_state-Runs = load-Runs pairing (decode_state x)

  -- A file that is there is not loaded as nothing.
  pub load_state-present :
      (d : Disk) (t : Text)
      → d.pairing_file ≡ some t
      → Runs
          (At d)
          (load_state x)
          (λ o w. At d w × ((v : StoredPairingState) × (o ≡ some v) × (decode_state x t ≡ ok v)))
          (λ _. At d)
  unfolding load_state
  load_state-present d t file =
      Runs-bind (found (read pairing)) (load_found (decode_state x)) (found-read-Runs pairing d)
        λ o. Runs-when λ e. present o e
    where
      present :
          (o : Option Text)
          → d.pairing_file ≡ o
          → Runs
              (At d)
              (load_found (decode_state x) o)
              (λ o w.
                At d w × ((v : StoredPairingState) × (o ≡ some v) × (decode_state x t ≡ ok v)))
              (λ _. At d)
      present none e = absurd (ground (arith, file, e))
      present (some u) e =
          Runs-bind-lift (decode_state x u) (λ v. pure (some v))
            (λ v h. Runs-pure (some v) (λ w p. (p, (v, refl, ap (decode_state x) (cc) ∙ h))))
            (λ e h w p. p)

  pub load_active_binding-Runs :
      (d : Disk)
      → Runs (At d) (load_active_binding x) (λ o w. At d w × (stored_binding d ≡ o)) (λ _. At d)
  unfolding load_active_binding
  load_active_binding-Runs = load-Runs binding (decode_binding x)

  pub load_auth_state-Runs :
      (d : Disk) → Runs (At d) (load_auth_state x) (λ o w. At d w × (stored_auth d ≡ o)) (λ _. At d)
  unfolding load_auth_state
  load_auth_state-Runs = load-Runs authorization (decode_auth x)

  pub persist_state-Runs :
      (s : StoredPairingState) (d : Disk)
      → Runs
          (At d)
          (persist_state x s)
          (λ _. At (put pairing (some (trim (x.state_to_json s))) d))
          (λ _ w. At d w ⊎ At (put pairing (some (trim (x.state_to_json s))) d) w)
  unfolding persist_state
  persist_state-Runs s = write-Runs pairing (x.state_to_json s)

  pub persist_auth_state-Runs :
      (a : LocalAuthState) (d : Disk)
      → Runs
          (At d)
          (persist_auth_state x a)
          (λ _. At (put authorization (some (trim (x.auth_to_json a))) d))
          (λ _ w. At d w ⊎ At (put authorization (some (trim (x.auth_to_json a))) d) w)
  unfolding persist_auth_state
  persist_auth_state-Runs a = write-Runs authorization (x.auth_to_json a)

  pub persist_active_binding-Runs :
      (b : ActiveBinding) (d : Disk)
      → Runs
          (At d)
          (persist_active_binding x b)
          (λ _. At (put binding (some (trim (x.binding_to_json b))) d))
          (λ _ w. At d w ⊎ At (put binding (some (trim (x.binding_to_json b))) d) w)
  unfolding persist_active_binding
  persist_active_binding-Runs b d =
      Runs-bind-lift _ _ (λ _ _. write-Runs binding (x.binding_to_json b) d) (λ _ _ w p. inl p)

  -- With no fault ahead the documents within their budgets are written, and read.
  pub load_state-Runs-Clean :
      (d : Disk) (t : Text) (s : StoredPairingState)
      → d.pairing_file ≡ some t
      → leb (byte_len t) (max_bytes pairing) ≡ true
      → decode_state x t ≡ ok s
      → Runs (Clean d) (load_state x) (λ o w. (o ≡ some s) × Clean d w) (λ _ _. ⊥)
  unfolding load_state
  load_state-Runs-Clean = load-Runs-Clean pairing (decode_state x)

  pub persist_state-Runs-Clean :
      (s : StoredPairingState) (d : Disk)
      → over_budget pairing (trim (x.state_to_json s)) ≡ false
      → Runs
          (Clean d)
          (persist_state x s)
          (λ _. Clean (put pairing (some (trim (x.state_to_json s))) d))
          (λ _ _. ⊥)
  unfolding persist_state
  persist_state-Runs-Clean s = write-Runs-Clean pairing (x.state_to_json s)

  pub persist_auth_state-Runs-Clean :
      (a : LocalAuthState) (d : Disk)
      → over_budget authorization (trim (x.auth_to_json a)) ≡ false
      → Runs
          (Clean d)
          (persist_auth_state x a)
          (λ _. Clean (put authorization (some (trim (x.auth_to_json a))) d))
          (λ _ _. ⊥)
  unfolding persist_auth_state
  persist_auth_state-Runs-Clean a = write-Runs-Clean authorization (x.auth_to_json a)

  pub persist_active_binding-Runs-Clean :
      (b : ActiveBinding) (d : Disk)
      → validate_active_binding x b ≡ ok tt
      → over_budget binding (trim (x.binding_to_json b)) ≡ false
      → Runs
          (Clean d)
          (persist_active_binding x b)
          (λ _. Clean (put binding (some (trim (x.binding_to_json b))) d))
          (λ _ _. ⊥)
  unfolding persist_active_binding
  persist_active_binding-Runs-Clean b d valid h =
      Runs-bind-lift _ _ (λ _ _. write-Runs-Clean binding (x.binding_to_json b) d h)
        (λ e failed w p. cc)
