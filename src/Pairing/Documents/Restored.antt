-- ===== src/Pairing/Documents/Restored.antt =====
-- What `persist_state` and `load_state` of src/pairing/state_io.rs do together.
use host_monitoring_client.Common.{
  ◌≡◌, refl, subst, ap, ◌∙◌, ◌⊎◌, inl, inr, Bool, true, false, Option, none, some, if◌then◌else◌,
  arith, ◌==◌, Bool-cases,
}
use host_monitoring_client.Common.Text.{Text, text_eq, text_eq→eq, trim}
use host_monitoring_client.Error.{Artifact, pairing_state, unsupported}
use host_monitoring_client.Exec.{World, Exec, Result, ok, err, pure, ◌>>=◌}
use host_monitoring_client.Exec.Runs.{
  Runs, Post, Runs-pure, Runs-bind, Runs-bind-lift, Runs-when, Runs-mono, Clean,
}
use host_monitoring_client.StateFiles.{Disk, pairing, put}
use host_monitoring_client.StateStore.{over_budget, found, read}
use host_monitoring_client.StateStore.Laws.{At, found-read-Runs}
use host_monitoring_client.Pairing.State.{StoredPairingState, generation_of, persisted_state_format}
use host_monitoring_client.Pairing.Platform.{Platform, PlatformLaws}
use host_monitoring_client.Pairing.Documents.{
  load_state, persist_state, decode_state, decode_pairing_document, decode_version, or_corrupt,
  refuse_nil, load_found, detected_version,
}
use host_monitoring_client.Pairing.Documents.Laws.{
  load_state-present, load_state-Runs-Clean, persist_state-Runs, persist_state-Runs-Clean,
  as_option,
}
use host_monitoring_client.Pairing.Documents.Printed.{
  decode-printed_state, decode-stored_state, decode_state-generation,
}

refuse_nil-ok :
    (r : Result StoredPairingState) (v : StoredPairingState) → refuse_nil r ≡ ok v → r ≡ ok v
refuse_nil-ok (err e) v h = ground arith
refuse_nil-ok (ok u) v h = elim (Bool-cases (generation_of u == 0)) [
  | inl nil ↦ ground arith
  | inr some_generation ↦ ground arith
]

module _ {T : Type 0} (from : Text → Option T) (artifact : Artifact) (t : Text) where
  or_corrupt-ok : (o : Option T) (v : T) → or_corrupt artifact o ≡ ok v → o ≡ some v
  or_corrupt-ok none v h = ground arith
  or_corrupt-ok (some u) v h = ap some (cc)

  -- A document is decoded only if it names the supported version.
  decode_version-supported :
      (header : Option (Option Text)) (v : T)
      → decode_version from artifact t header ≡ ok v
      → (header ≡ some (some persisted_state_format)) × (from t ≡ some v)
  decode_version-supported none v h = ground arith
  decode_version-supported (some none) v h = ground arith
  decode_version-supported (some (some version)) v h =
      by_version (text_eq version persisted_state_format) refl h
    where
      by_version :
          (b : Bool)
          → text_eq version persisted_state_format ≡ b
          → (if b
              then or_corrupt artifact (from t)
              else err (unsupported artifact (detected_version version)))
            ≡ ok v
          → (some (some version) ≡ some (some persisted_state_format)) × (from t ≡ some v)
      by_version true e h = (
        ap (λ u. some (some u)) (text_eq→eq version persisted_state_format e),
        or_corrupt-ok (from t) v h,
      )
      by_version false e h = ground arith

module _ (x : Platform) where
  -- The file of a state that was loaded: of the supported version, whole and with a generation.
  abbrev pub Document : StoredPairingState → Text → Type 0
  Document v t =
      (x.header_version t ≡ some (some persisted_state_format))
      × (x.state_from_json t ≡ some v)
      × ((generation_of v == 0) ≡ false)

  -- A load changes nothing, and returns what the document in the file says, or that there is no file.
  abbrev pub Loaded : Disk → Option StoredPairingState → World → Type 0
  Loaded d none w = At d w × (d.pairing_file ≡ none)
  Loaded d (some v) w = At d w × ((t : Text) × (d.pairing_file ≡ some t) × Document v t)

  decode_state-Document :
      (t : Text) (v : StoredPairingState) → decode_state x t ≡ ok v → Document v t
  unfolding decode_state decode_pairing_document
  decode_state-Document t v h =
      let generation = decode_state-generation x t v h in
      let (version, parsed) =
        decode_version-supported x.state_from_json pairing_state t (x.header_version t) v (
          refuse_nil-ok (decode_pairing_document x.header_version x.state_from_json pairing_state t)
            v h) in
      (version, parsed, generation)

  load_state-Loaded : (d : Disk) → Runs (At d) (load_state x) (Loaded d) (λ _. At d)
  unfolding load_state
  load_state-Loaded d =
      Runs-bind (found (read pairing)) (load_found (decode_state x)) (found-read-Runs pairing d)
        λ o. Runs-when λ e. by_content o e
    where
      by_content :
          (o : Option Text)
          → d.pairing_file ≡ o
          → Runs (At d) (load_found (decode_state x) o) (Loaded d) (λ _. At d)
      by_content none e = Runs-pure none (λ w p. (p, e))
      by_content (some t) e =
          Runs-bind-lift (decode_state x t) (λ v. pure (some v))
            (λ v h. Runs-pure (some v) (λ w p. (p, (t, e, decode_state-Document t v h))))
            (λ _ _ w p. p)

module _ (x : Platform) (laws : PlatformLaws x) (s : StoredPairingState) where
  -- The state is written, and read again.
  abbrev pub stored_and_loaded : Exec (Option StoredPairingState)
  stored_and_loaded = persist_state x s >>= λ _. load_state x

  abbrev pub written : Disk → Disk
  written d = put pairing (some (trim (x.state_to_json s))) d

  -- What was written is what was read, and it has a generation.
  abbrev pub Restored : Disk → Option StoredPairingState → World → Type 0
  Restored d o w = (o ≡ some s) × ((generation_of s == 0) ≡ false) × At (written d) w

  -- The state has no generation, or its document does not fit its file.
  abbrev pub Unstorable : Type 0
  Unstorable =
      ((generation_of s == 0) ≡ true) ⊎ (over_budget pairing (trim (x.state_to_json s)) ≡ true)

  abbrev pub Either : Disk → World → Type 0
  Either d w = At d w ⊎ At (written d) w

  stored_and_loaded-Runs : (d : Disk) → Runs (At d) stored_and_loaded (Restored d) (λ _. Either d)
  stored_and_loaded-Runs d = Runs-bind _ _ (persist_state-Runs x s d) λ _.
      Runs-mono (load_state-present x (written d) (trim (x.state_to_json s)) refl) (λ w p. p)
        (λ o w p.
          let (v, e, h) = p.1 in
          let same = decode-stored_state x laws s v (ap as_option h) in
          (
            e ∙ ap some same,
            subst (λ u. (generation_of u == 0) ≡ false) same
                (decode_state-generation x (trim (x.state_to_json s)) v h),
            p.0,
          ))
        (λ _ w p. inr p)

  stored_and_loaded-Runs-Clean :
      (d : Disk) → Runs (Clean d) stored_and_loaded (Restored d) (λ _ _. Unstorable)
  stored_and_loaded-Runs-Clean d = elim (Bool-cases (generation_of s == 0)) [
    | inl nil ↦ Runs-mono (stored_and_loaded-Runs d) (λ w p. p.0) (λ _ w p. p) (λ _ w p. inl nil)
    | inr h ↦ elim (Bool-cases (over_budget pairing (trim (x.state_to_json s)))) [
      | inl over ↦
          Runs-mono (stored_and_loaded-Runs d) (λ w p. p.0) (λ _ w p. p) (λ _ w p. inr over)
      | inr fits ↦
          Runs-bind _ _
            (Runs-mono (persist_state-Runs-Clean x s d fits) (λ w p. p) (λ _ w p. p)
              (λ _ w p. absurd p))
            λ _.
              Runs-mono
                (load_state-Runs-Clean x (written d) (trim (x.state_to_json s)) s refl
                  (ground arith) (decode-printed_state x laws s h))
                (λ w p. p) (λ o w p. (p.0, h, p.1.0)) (λ _ w p. absurd p)
    ]
  ]

  -- A pairing state that is written and read again comes back as it was, whatever faults there are, and
  -- only if its generation is not nil; a failure leaves the old file or the new one. With no fault ahead
  -- this fails only for a nil generation or a document that is empty or over its file's budget. Whatever
  -- else is in the file, a load changes nothing and returns a state only from a document that names the
  -- supported version and has a generation, and nothing only if there is no file.
  pub load_state-persist_state :
      (w clean : World)
      → Clean w.disk clean
      → Post (Restored w.disk) (λ _. Either w.disk) (stored_and_loaded w)
        × Post (Restored w.disk) (λ _ _. Unstorable) (stored_and_loaded clean)
        × Post (Loaded x w.disk) (λ _. At w.disk) (load_state x w)
  load_state-persist_state w clean h = (
    (stored_and_loaded-Runs w.disk).at w refl,
    (stored_and_loaded-Runs-Clean w.disk).at clean h,
    (load_state-Loaded x w.disk).at w refl,
  )
