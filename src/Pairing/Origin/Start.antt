-- ===== src/Pairing/Origin/Start.antt =====
-- Tokens of new requests: src/pairing/create.rs.
use host_monitoring_client.Common.{
  ℕ, ◌≡◌, refl, subst, sym, ◌∙◌, inl, inr, Bool, true, false, Option, none, some, List,
  if◌then◌else◌, arith, ◌&&◌, not, ltb,
}
use host_monitoring_client.Common.Text.{Text}
use host_monitoring_client.Config.{ClientConfig}
use host_monitoring_client.Error.{
  Error, io_error, not_found, rejected, superseded, entropy_unavailable, different_server_creating,
  different_server_pending,
}
use host_monitoring_client.Exec.{World, Exec, Result, ok, err, pure, throw, lift}
use host_monitoring_client.Exec.Runs.{
  Runs, Runs-pure, Runs-throw, Runs-bind, Runs-mono, Runs-given, Runs-when, Runs-if, Runs-at,
  Runs-draw, Runs-utc_now, Runs-try, Runs-io, Runs-lift,
}
use host_monitoring_client.StateFiles.{Disk, identity}
use host_monitoring_client.StateStore.{open_reader}
use host_monitoring_client.StateStore.Laws.{At, read-Runs}
use host_monitoring_client.Pairing.State.{
  StoredPairingState, creating, pending, activating, active, denied, expired, Activating, Pending,
  Creating, HostIdentity, Time,
}
use host_monitoring_client.Pairing.Platform.{Platform, PlatformLaws, CreatePairingResponse}
use host_monitoring_client.Pairing.Identity.{from_state}
use host_monitoring_client.Pairing.Documents.{binding_of_active}
use host_monitoring_client.Pairing.Documents.Laws.{stored_state, load_state-Runs}
use host_monitoring_client.Pairing.Compare.{compare_and_persist_creating, is_creating}
use host_monitoring_client.Pairing.Compare.Laws.{
  load_current_active_binding-Runs, is_creating-creating,
}
use host_monitoring_client.Pairing.Commit.{session_of_journal}
use host_monitoring_client.Pairing.Http.{Net, Request, random_secret, or_no_entropy, hex}
use host_monitoring_client.Pairing.Create.{
  PairingStart, waiting_start, create_start, check_expired, require, create_generation,
  prepare_pending, prepare_creating, prepare_activating, prepare_from, prepare_start, inferred_mode,
  session_of_pending, pairing_endpoints_match, accept_created, finish_create_request,
  pending_of_response,
}
use host_monitoring_client.Pairing.Origin.{
  JournalBound, Settled, Bound, Always, begin-Bound, persist_state-Bound, finish_activating-Settled,
  Bound-Settled,
}

module _ {P : World → Type 0} {E : Error → World → Type 0} where
  pub Runs-require :
      (b : Bool) (e : Error) → ((w : World) → P w → E e w) → Runs P (require b e) (λ _. P) E
  Runs-require true e h = Runs-pure tt (λ w p. p)
  Runs-require false e h = Runs-throw e h

  pub Runs-lifted :
      {A : Type 0} (r : Result A)
      → ((e : Error) (w : World) → P w → E e w)
      → Runs P (lift r) (λ _. P) E
  Runs-lifted r h = Runs-lift r (λ _ _ w p. p) (λ e _ w p. h e w p)

module _ (x : Platform) where
  -- The secret is the hexadecimal form of drawn bytes.
  abbrev pub Drawn : Text → Type 0
  Drawn t = (n : ℕ) × (bytes : List ℕ) × (x.random_bytes n ≡ some bytes) × (t ≡ hex bytes)

  random_secret-Runs :
      (Q : Disk → Type 0) {E : Error → World → Type 0}
      → ((e : Error) (w : World) → Q w.disk → E e w)
      → Runs (λ w. Q w.disk) (random_secret x) (λ t w. Drawn t × Q w.disk) E
  unfolding random_secret
  random_secret-Runs Q {E} h = Runs-bind _ _ (Runs-draw Q) λ n. from n (x.random_bytes n) refl
    where
      from :
          (n : ℕ) (o : Option (List ℕ))
          → x.random_bytes n ≡ o
          → Runs (λ w. Q w.disk) (or_no_entropy o) (λ t w. Drawn t × Q w.disk) E
      from n none e = Runs-throw (rejected entropy_unavailable) (λ w p. h _ w p)
      from n (some b) e = Runs-pure (hex b) (λ w p. ((n, b, e, refl), p))

  open_reader-Runs : (d : Disk) → Runs (At d) open_reader (λ _. At d) (λ _. At d)
  unfolding open_reader
  open_reader-Runs d =
      Runs-mono (Runs-io (λ d. if d.present then ok (tt, d) else err (io_error not_found)) d)
        (λ w p. p) (λ _ w e. ground arith) (λ _ w e. ground arith)

  -- The identity is only read.
  pub inferred_mode-Runs :
      (host : HostIdentity) (d : Disk) {E : Error → World → Type 0}
      → Runs (At d) (inferred_mode x host) (λ _. At d) E
  unfolding inferred_mode from_state
  inferred_mode-Runs host d =
      Runs-try {Q = λ _. At d} {F = λ _. At d} _ _ _
        (Runs-bind _ _ (open_reader-Runs d) λ _.
          Runs-bind _ _ (Runs-mono (read-Runs identity d) (λ w p. p) (λ _ w p. p.0) (λ _ w p. p.0))
            λ v. Runs-lifted _ (λ e w p. p))
        (λ id. Runs-pure _ (λ w p. p)) (λ e. Runs-pure _ (λ w p. p))

module _ (x : Platform) (laws : PlatformLaws x) (P : Text → Text → Type 0) where
  -- The fact that a journal on disk tells of its own token.
  pub journal_bound :
      (d : Disk) (s : StoredPairingState)
      → stored_state x d ≡ some s
      → Bound x laws P d
      → JournalBound x laws P (some s)
  journal_bound d s e (inl h) = subst (JournalBound x laws P) e h.0
  journal_bound d s e (inr (a, stored, p)) = subst (JournalBound x laws P) (sym stored ∙ e) p

  abbrev pub Starts : PairingStart → World → Type 0
  Starts (create_start c) w = P c.bearer_secret c.report_endpoint × Bound x laws P w.disk
  Starts s w = Unit × Bound x laws P w.disk

  module _ (config : ClientConfig)
      (fresh : (n : ℕ) (bytes : List ℕ)
        → x.random_bytes n ≡ some bytes
        → P (hex bytes) config.endpoint) where
    create_generation-Bound :
        (host : HostIdentity)
        → Runs
            (λ w. Settled x laws P w.disk)
            (create_generation x config host)
            Starts
            (Always x laws P)
    unfolding create_generation
    create_generation-Bound host = Runs-bind _ _ (Runs-draw (Settled x laws P)) λ n.
        Runs-bind _ _ (random_secret-Runs x (Settled x laws P) (λ e w p. inl p)) λ bearer.
          Runs-given λ drawn.
            Runs-bind _ _ (random_secret-Runs x (Settled x laws P) (λ e w p. inl p)) λ polling.
              Runs-given λ _. Runs-at λ d s.
                Runs-bind _ _ (persist_state-Bound x laws P _ d s (owned drawn))
                  λ _. Runs-pure _ (λ w p. (owned drawn, inl p.0))
      where
        owned : {t : Text} → Drawn x t → P t config.endpoint
        owned (n, b, e, same) = subst (λ t. P t config.endpoint) (sym same) (fresh n b e)

    stays : (d : Disk) (w : World) → Bound x laws P d → At d w → Bound x laws P w.disk
    stays d w h p = subst (Bound x laws P) (sym p) h

    refuses :
        (d : Disk) (e : Error) → Bound x laws P d → Runs (At d) (throw e) Starts (Always x laws P)
    refuses d e h = Runs-throw e (λ w p. stays d w h p)

    anew :
        (host : HostIdentity) (d : Disk)
        → Settled x laws P d
        → Runs (At d) (create_generation x config host) Starts (Always x laws P)
    anew host d h =
        Runs-mono (create_generation-Bound host) (λ w p. subst (Settled x laws P) (sym p) h)
          (λ _ w p. p) (λ _ w p. p)

    prepare_pending-Bound :
        (host : HostIdentity) (now : Time) (p : Pending) (d : Disk)
        → Settled x laws P d
        → Runs (At d) (prepare_pending x config host now p) Starts (Always x laws P)
    prepare_pending-Bound host now p d h =
        let keep = not config.replace_pending_pairing in
        let same = pairing_endpoints_match x config p.pairing_endpoint p.report_endpoint in
        let refused : Exec PairingStart = throw (rejected different_server_pending) in
        let check : Exec PairingStart = pure (check_expired (session_of_pending p)) in
        let other = create_generation x config host in
        Runs-if (keep && ltb now p.expires_at && same) (pure (waiting_start (session_of_pending p)))
          (if keep && ltb now p.expires_at then refused else if keep && same then check else other)
          (λ _. Runs-pure (waiting_start (session_of_pending p)) (λ w q. (tt, stays d w (inl h) q)))
          λ _.
            Runs-if (keep && ltb now p.expires_at) refused (if keep && same then check else other)
              (λ _. refuses d (rejected different_server_pending) (inl h))
              λ _.
                Runs-if (keep && same) check other
                  (λ _.
                    Runs-pure (check_expired (session_of_pending p))
                      (λ w q. (tt, stays d w (inl h) q)))
                  λ _. anew host d h

    prepare_creating-Bound :
        (host : HostIdentity) (c : Creating) (d : Disk)
        → Settled x laws P d
        → P c.bearer_secret c.report_endpoint
        → Runs (At d) (prepare_creating x config host c) Starts (Always x laws P)
    prepare_creating-Bound host c d h own =
        let keep = not config.replace_pending_pairing in
        let same = pairing_endpoints_match x config c.pairing_endpoint c.report_endpoint in
        let refused : Exec PairingStart = throw (rejected different_server_creating) in
        let other = create_generation x config host in
        Runs-if (keep && same) (pure (create_start c)) (if keep then refused else other)
          (λ _. Runs-pure (create_start c) (λ w q. (own, stays d w (inl h) q)))
          λ _.
            Runs-if keep refused other (λ _. refuses d (rejected different_server_creating) (inl h))
              λ _. anew host d h

    prepare_activating-Bound :
        (host : HostIdentity) (a : Activating) (d : Disk)
        → stored_state x d ≡ some (activating a)
        → P a.bearer_secret a.report_endpoint
        → Runs (At d) (prepare_activating x config host a) Starts (Always x laws P)
    unfolding prepare_activating
    prepare_activating-Bound host a d e own =
        Runs-bind _ _ (finish_activating-Settled x laws P d a e own a) λ _.
          Runs-if _ _ _ (λ _. Runs-pure (waiting_start (session_of_journal a)) (λ w q. (tt, inl q)))
            λ _. create_generation-Bound host

    prepare_from-Bound :
        (host : HostIdentity) (now : Time) (d : Disk) (o : Option StoredPairingState)
        → stored_state x d ≡ o
        → Bound x laws P d
        → Runs (At d) (prepare_from x config host now o) Starts (Always x laws P)
    prepare_from-Bound host now d none e b =
        anew host d (Bound-Settled x laws P d none e (λ a h. ground (arith, h)) b)
    prepare_from-Bound host now d (some (creating c)) e b =
        prepare_creating-Bound host c d
          (Bound-Settled x laws P d (some (creating c)) e (λ a h. ground (arith, h)) b)
          (journal_bound d (creating c) e b)
    prepare_from-Bound host now d (some (pending p)) e b =
        prepare_pending-Bound host now p d
          (Bound-Settled x laws P d (some (pending p)) e (λ a h. ground (arith, h)) b)
    prepare_from-Bound host now d (some (activating a)) e b =
        prepare_activating-Bound host a d e (journal_bound d (activating a) e b)
    prepare_from-Bound host now d (some (active s)) e b =
        let h = Bound-Settled x laws P d (some (active s)) e (λ a h. ground (arith, h)) b in
        Runs-bind _ _
          (Runs-mono (load_current_active_binding-Runs x (binding_of_active s) d) (λ w p. p)
            (λ _ w p. p.0) (λ _ w p. stays d w b p))
          λ _. anew host d h
    prepare_from-Bound host now d (some (denied s)) e b =
        anew host d (Bound-Settled x laws P d (some (denied s)) e (λ a h. ground (arith, h)) b)
    prepare_from-Bound host now d (some (expired s)) e b =
        anew host d (Bound-Settled x laws P d (some (expired s)) e (λ a h. ground (arith, h)) b)

    -- A new request, or the look at the one in flight, keeps every token with its endpoint; and a request
    -- that is created then has a token of its own endpoint.
    pub prepare_start-Bound :
        (host : HostIdentity)
        → Runs (λ w. Bound x laws P w.disk) (prepare_start x config host) Starts (Always x laws P)
    unfolding prepare_start
    prepare_start-Bound host = Runs-bind _ _ (begin-Bound x laws P) λ _.
        Runs-bind _ _ Runs-utc_now λ now. Runs-at λ d b.
          Runs-bind _ _
            (Runs-mono (load_state-Runs x d) (λ w p. p) (λ _ w p. p) (λ _ w p. stays d w b p))
            λ o. Runs-when λ e. prepare_from-Bound host now d o e b

  -- While the client waits, other processes may act, as long as they keep the tokens bound too.
  abbrev pub NetBound : Net → Type 0
  NetBound net =
      (r : Request) → Runs (λ w. Bound x laws P w.disk) (net r) (Always x laws P) (Always x laws P)

  compare_and_persist_creating-Bound :
      (c : Creating) (next : StoredPairingState)
      → JournalBound x laws P (some next)
      → Runs
          (λ w. Bound x laws P w.disk)
          (compare_and_persist_creating x c next)
          (Always x laws P)
          (Always x laws P)
  unfolding compare_and_persist_creating
  compare_and_persist_creating-Bound c next own = Runs-bind _ _ (begin-Bound x laws P) λ _.
      Runs-at λ d b.
        Runs-bind _ _
          (Runs-mono (load_state-Runs x d) (λ w p. p) (λ _ w p. p)
            (λ _ w p. subst (Bound x laws P) (sym p) b))
          λ o. Runs-when λ e.
            Runs-if _ _ _
              (λ h.
                Runs-mono (persist_state-Bound x laws P next d (settled d o e b h) own) (λ w p. p)
                  (λ _ w p. inl p.0) (λ _ w p. p))
              (λ h. Runs-throw superseded (λ w p. subst (Bound x laws P) (sym p) b))
    where
      settled :
          (d : Disk) (o : Option StoredPairingState)
          → stored_state x d ≡ o
          → Bound x laws P d
          → is_creating c o ≡ true
          → Settled x laws P d
      settled d o e b h =
          Bound-Settled x laws P d o e
            (λ a k. let f = (is_creating-creating c o h).1 in ground (arith, f, k)) b

  accept_created-Bound :
      (c : Creating) (r : CreatePairingResponse)
      → P c.bearer_secret c.report_endpoint
      → Runs (λ w. Bound x laws P w.disk) (accept_created x c r) (Always x laws P) (Always x laws P)
  unfolding accept_created pending_of_response
  accept_created-Bound c r own = Runs-bind _ _ (Runs-require _ _ (λ w p. p)) λ _.
      Runs-bind _ _ (Runs-require _ _ (λ w p. p)) λ _.
        Runs-bind _ _ (Runs-lifted _ (λ e w p. p)) λ url.
          Runs-bind _ _ (Runs-lifted _ (λ e w p. p)) λ _. Runs-bind _ _ Runs-utc_now λ now.
            Runs-bind _ _ (compare_and_persist_creating-Bound c _ own) λ _. Runs-pure _ (λ w p. p)

  -- A created request keeps its token with its endpoint, whatever the server answers.
  pub finish_create_request-Bound :
      (config : ClientConfig) (net : Net) (c : Creating)
      → NetBound net
      → P c.bearer_secret c.report_endpoint
      → Runs
          (λ w. Bound x laws P w.disk)
          (finish_create_request x config net c)
          (Always x laws P)
          (Always x laws P)
  unfolding finish_create_request
  finish_create_request-Bound config net c good own =
      Runs-bind _ _ (Runs-lifted _ (λ e w p. p)) λ _.
        Runs-bind _ _ (Runs-lifted _ (λ e w p. p)) λ _.
          Runs-bind _ _ (Runs-lifted _ (λ e w p. p)) λ _.
            Runs-bind _ _ (Runs-require _ _ (λ w p. p)) λ _.
              Runs-bind _ _
                (Runs-at λ d b.
                  Runs-mono (inferred_mode-Runs x c.host d) (λ w p. p)
                    (λ _ w p. subst (Bound x laws P) (sym p) b) (λ _ w p. p))
                λ mode. Runs-bind _ _ (good _) λ response.
                  Runs-bind _ _ (Runs-lifted _ (λ e w p. p)) λ _.
                    Runs-bind _ _ (Runs-lifted _ (λ e w p. p))
                      λ created. accept_created-Bound c created own
