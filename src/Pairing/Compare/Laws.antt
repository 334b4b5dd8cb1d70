-- ===== src/Pairing/Compare/Laws.antt =====
-- What the compare-and-swap operations look at: src/pairing/state_io.rs.
use host_monitoring_client.Exec.{World, throw}
use host_monitoring_client.Pairing.Documents.{persist_state}
use host_monitoring_client.Common.{
  ◌≡◌, ◌⊎◌, inl, inr, ap, refl, ◌∙◌, true, Option, none, some, arith,
}
use host_monitoring_client.Error.{active_binding, corrupt, superseded}
use host_monitoring_client.Common.Text.{trim, text_eq→eq}
use host_monitoring_client.StateFiles.{Disk, put, pairing}
use host_monitoring_client.Exec.Runs.{
  Runs, Post, Runs-pure, Runs-throw, Runs-bind, Runs-mono, Runs-when, Runs-if,
}
use host_monitoring_client.StateStore.Laws.{At, created, begin-Runs}
use host_monitoring_client.Pairing.State.{
  StoredPairingState, pending, creating, Pending, Creating, ActiveBinding,
}
use host_monitoring_client.Pairing.Platform.{Platform}
use host_monitoring_client.Pairing.Documents.Laws.{
  stored_state, stored_binding, load_state-Runs, load_active_binding-Runs, persist_state-Runs,
}
use host_monitoring_client.Pairing.Compare.{
  RequestKey, key_of_pending, is_pending, is_creating, current_is, compare_and_persist_pending,
  compare_and_persist_creating, ensure_pending_is_current, load_current_active_binding,
}

pub is_pending-pending :
    (k : RequestKey) (o : Option StoredPairingState)
    → is_pending k o ≡ true
    → (p : Pending) × (o ≡ some (pending p))
is_pending-pending k (some (pending p)) h = (p, refl)
is_pending-pending k o h = absurd (ground (arith, h))

pub is_creating-creating :
    (c : Creating) (o : Option StoredPairingState)
    → is_creating c o ≡ true
    → (s : Creating) × (o ≡ some (creating s))
is_creating-creating c (some (creating s)) h = (s, refl)
is_creating-creating c o h = absurd (ground (arith, h))

-- The creation `s` is the creation `c`, as far as an answer can tell.
abbrev pub SameCreation : Creating → Creating → Type 0
SameCreation s c =
    (s.generation ≡ c.generation)
    × (s.pairing_endpoint ≡ c.pairing_endpoint)
    × (s.report_endpoint ≡ c.report_endpoint)
    × (s.polling_secret ≡ c.polling_secret)

is_creating-SameCreation :
    (c : Creating) (o : Option StoredPairingState)
    → is_creating c o ≡ true
    → (s : Creating) × (o ≡ some (creating s)) × SameCreation s c
is_creating-SameCreation c (some (creating s)) h = (
  s,
  refl,
  (
    ground arith,
    text_eq→eq s.pairing_endpoint c.pairing_endpoint (ground arith),
    text_eq→eq s.report_endpoint c.report_endpoint (ground arith),
    text_eq→eq s.polling_secret c.polling_secret (ground arith),
  ),
)
is_creating-SameCreation c o h = absurd (ground (arith, h))

is_pending-key :
    (k : RequestKey) (o : Option StoredPairingState)
    → is_pending k o ≡ true
    → (p : Pending) × (o ≡ some (pending p)) × (key_of_pending p ≡ k)
unfolding key_of_pending
is_pending-key k (some (pending p)) h =
    let generation : p.generation ≡ k.generation = ground arith in
    let request_id : p.request_id ≡ k.request_id = ground arith in
    let pairing_endpoint = text_eq→eq p.pairing_endpoint k.pairing_endpoint (ground arith) in
    let report_endpoint = text_eq→eq p.report_endpoint k.report_endpoint (ground arith) in
    let polling_secret = text_eq→eq p.polling_secret k.polling_secret (ground arith) in
    (p, refl, rw (generation, request_id, pairing_endpoint, report_endpoint, polling_secret) refl)
is_pending-key k o h = absurd (ground (arith, h))

module _ (x : Platform) where
  -- The check looks only, and passes only if a request is waiting.
  pub ensure_pending_is_current-Runs :
      (k : RequestKey) (d : Disk)
      → Runs
          (At d)
          (ensure_pending_is_current x k)
          (λ _ w. At d w × (is_pending k (stored_state x d) ≡ true))
          (λ _. At d)
  unfolding ensure_pending_is_current
  ensure_pending_is_current-Runs k d = Runs-bind _ _ (load_state-Runs x d) λ o. Runs-when λ e.
      Runs-if _ _ _ (λ h. Runs-pure tt (λ w p. (p, rw (e, h) refl)))
        (λ h. Runs-throw superseded (λ w p. p))

  pub load_current_active_binding-Runs :
      (b : ActiveBinding) (d : Disk)
      → Runs
          (At d)
          (load_current_active_binding x b)
          (λ c w. At d w × (stored_binding x d ≡ some c))
          (λ _. At d)
  unfolding load_current_active_binding
  load_current_active_binding-Runs b d =
      Runs-bind _ _ (load_active_binding-Runs x d) λ o. by_binding o
    where
      by_binding :
          (o : Option ActiveBinding)
          → Runs
              (λ w. At d w × (stored_binding x d ≡ o))
              (current_is x b o)
              (λ c w. At d w × (stored_binding x d ≡ some c))
              (λ _. At d)
      by_binding none = Runs-throw (corrupt active_binding) (λ w p. p.0)
      by_binding (some c) =
          Runs-if _ _ _ (λ h. Runs-pure c (λ w p. p))
            (λ h. Runs-throw (corrupt active_binding) (λ w p. p.0))

  -- The journal becomes `next` if the request that `k` identifies was waiting before.
  abbrev pub PendingSwapped : RequestKey → StoredPairingState → Disk → World → Type 0
  PendingSwapped k next d w =
      ((p : Pending) × (stored_state x d ≡ some (pending p)) × (key_of_pending p ≡ k))
      × At (put pairing (some (trim (x.state_to_json next))) (created d)) w

  abbrev pub CreatingSwapped : Creating → StoredPairingState → Disk → World → Type 0
  CreatingSwapped c next d w =
      ((s : Creating) × (stored_state x d ≡ some (creating s)) × SameCreation s c)
      × At (put pairing (some (trim (x.state_to_json next))) (created d)) w

  -- Nothing has changed but that the directory is there.
  abbrev pub Untouched : Disk → World → Type 0
  Untouched d w = At d w ⊎ At (created d) w

  persist_pending-Runs :
      (k : RequestKey) (next : StoredPairingState) (d : Disk)
      → is_pending k (stored_state x d) ≡ true
      → Runs
          (At (created d))
          (persist_state x next)
          (λ _. PendingSwapped k next d)
          (λ _ w. Untouched d w ⊎ PendingSwapped k next d w)
  persist_pending-Runs k next d h =
      let waiting = is_pending-key k (stored_state x d) h in
      Runs-mono (persist_state-Runs x next (created d)) (λ w p. p) (λ _ w p. (waiting, p))
        (λ _ w p. elim p [ inl a ↦ inl (inr a) | inr a ↦ inr (waiting, a) ])

  compare_and_persist_pending-Runs :
      (k : RequestKey) (next : StoredPairingState) (d : Disk)
      → Runs
          (At d)
          (compare_and_persist_pending x k next)
          (λ _. PendingSwapped k next d)
          (λ _ w. Untouched d w ⊎ PendingSwapped k next d w)
  unfolding compare_and_persist_pending
  compare_and_persist_pending-Runs k next d =
      Runs-bind _ _ (Runs-mono (begin-Runs d) (λ w p. p) (λ _ w p. p) (λ _ w p. inl p)) λ _.
        Runs-bind _ _
          (Runs-mono (ensure_pending_is_current-Runs k (created d)) (λ w p. p) (λ _ w p. p)
            (λ _ w p. inl (inr p)))
          λ _. Runs-when λ h. persist_pending-Runs k next d h

  persist_creating-Runs :
      (c : Creating) (next : StoredPairingState) (d : Disk)
      → is_creating c (stored_state x d) ≡ true
      → Runs
          (At (created d))
          (persist_state x next)
          (λ _. CreatingSwapped c next d)
          (λ _ w. Untouched d w ⊎ CreatingSwapped c next d w)
  persist_creating-Runs c next d h =
      let waiting = is_creating-SameCreation c (stored_state x d) h in
      Runs-mono (persist_state-Runs x next (created d)) (λ w p. p) (λ _ w p. (waiting, p))
        (λ _ w p. elim p [ inl a ↦ inl (inr a) | inr a ↦ inr (waiting, a) ])

  compare_and_persist_creating-Runs :
      (c : Creating) (next : StoredPairingState) (d : Disk)
      → Runs
          (At d)
          (compare_and_persist_creating x c next)
          (λ _. CreatingSwapped c next d)
          (λ _ w. Untouched d w ⊎ CreatingSwapped c next d w)
  unfolding compare_and_persist_creating
  compare_and_persist_creating-Runs c next d =
      Runs-bind _ _ (Runs-mono (begin-Runs d) (λ w p. p) (λ _ w p. p) (λ _ w p. inl p)) λ _.
        Runs-bind _ _
          (Runs-mono (load_state-Runs x (created d)) (λ w p. p) (λ o w p. p) (λ _ w p. inl (inr p)))
          λ o. Runs-when λ e.
            Runs-if (is_creating c o) (persist_state x next) (throw superseded)
              (λ h. persist_creating-Runs c next d (ap (is_creating c) e ∙ h))
              (λ h. Runs-throw superseded (λ w p. inl (inr p)))

  -- A writer replaces the journal only if the request on disk is its own: the same generation, request id,
  -- endpoints and polling secret. Success means that it was and that its document is now stored, and a
  -- failure has replaced the journal of that very request or nothing, but that the directory is there.
  pub compare_and_persist_pending-Swapped :
      (k : RequestKey) (next : StoredPairingState) (w : World)
      → Post
          (λ _. PendingSwapped k next w.disk)
          (λ _ v. Untouched w.disk v ⊎ PendingSwapped k next w.disk v)
          (compare_and_persist_pending x k next w)
  compare_and_persist_pending-Swapped k next w =
      (compare_and_persist_pending-Runs k next w.disk).at w refl

  -- The answer to a creation replaces the journal only if the creation on disk is the one it belongs to:
  -- the same generation, endpoints and polling secret. Success means that it was and that the document is
  -- now stored, and a failure has replaced that very creation or nothing, but that the directory is there.
  pub compare_and_persist_creating-Swapped :
      (c : Creating) (next : StoredPairingState) (w : World)
      → Post
          (λ _. CreatingSwapped c next w.disk)
          (λ _ v. Untouched w.disk v ⊎ CreatingSwapped c next w.disk v)
          (compare_and_persist_creating x c next w)
  compare_and_persist_creating-Swapped c next w =
      (compare_and_persist_creating-Runs c next w.disk).at w refl
