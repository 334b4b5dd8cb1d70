-- ===== src/Pairing/Create.antt =====
-- src/pairing/create.rs up to the request's creation: choosing or making the request generation, and
-- `finish_create_request`.
use host_monitoring_client.Common.{
  ℕ, ◌+◌, ◌*◌, Bool, true, false, ◌&&◌, ◌||◌, not, Option, some, [], ◌∷◌, ◌==◌, ltb, if◌then◌else◌,
}
use host_monitoring_client.Common.Text.{Text, text_eq}
use host_monitoring_client.Error.{
  Error, rejected, create, different_server_pending, different_server_creating, invalid_expiration,
  invalid_poll_interval, client_unavailable, mode_mismatch,
}
use host_monitoring_client.Exec.{Exec, pure, throw, lift, utc_now, draw, ◌>>=◌, ◌>>◌, try_else}
use host_monitoring_client.Config.{ClientConfig}
use host_monitoring_client.StateStore.{begin, open_reader}
use host_monitoring_client.Pairing.State.{
  Time, HostIdentity, StoredPairingState, creating, pending, activating, active, Creating, Pending,
  Activating, PairingSession, current_version,
}
use host_monitoring_client.Pairing.Platform.{Platform, CreatePairingResponse}
use host_monitoring_client.Pairing.Endpoints.{
  validate_pairing_endpoint, validate_durable_report_endpoint, pairing_endpoint,
  resolve_activation_url, validate_activation_url_request,
}
use host_monitoring_client.Pairing.Documents.{
  load_state, persist_state, validate_state_version, binding_of_active,
}
use host_monitoring_client.Pairing.Identity.{from_state}
use host_monitoring_client.Pairing.Credentials.{finish_activating}
use host_monitoring_client.Pairing.Compare.{
  load_current_active_binding, compare_and_persist_creating,
}
use host_monitoring_client.Pairing.Commit.{session_of_journal}
use host_monitoring_client.Pairing.Http.{
  Net, PairMode, fresh, recover_identity, create_request, random_secret, sha256_hex,
  ensure_pairing_response, parse_pairing_json,
}

pub data PairingStart : Type 0 where
  waiting_start : PairingSession → PairingStart
  create_start : Creating → PairingStart
  check_expired : PairingSession → PairingStart

pub session_of_pending : Pending → PairingSession
session_of_pending p = record {
  generation = p.generation;
  request_id = p.request_id;
  activation_url = p.activation_url;
  expires_at = p.expires_at;
  poll_interval = p.poll_interval;
}

unfoldable pub pending_of_response : Creating → CreatePairingResponse → Text → Time → Pending
pending_of_response c r activation_url expires_at = record {
  version = current_version;
  generation = c.generation;
  request_id = r.request_id;
  activation_url = activation_url;
  expires_at = expires_at;
  poll_interval = r.poll_interval;
  pairing_endpoint = c.pairing_endpoint;
  report_endpoint = c.report_endpoint;
  bearer_secret = c.bearer_secret;
  polling_secret = c.polling_secret;
}

abbrev pub require : Bool → Error → Exec Unit
require true e = pure tt
require false e = throw e

module _ (x : Platform) (config : ClientConfig) where
  unfoldable pub pairing_endpoints_match : Text → Text → Bool
  pairing_endpoints_match stored_pairing stored_report =
      text_eq stored_pairing (pairing_endpoint x config) && text_eq stored_report config.endpoint

  -- The tail of `prepare_start`: a new generation with its own secrets, durable before the first POST.
  unfoldable pub create_generation : HostIdentity → Exec PairingStart
  create_generation host = do
    n ← draw
    bearer ← random_secret x
    polling ← random_secret x
    let c : Creating = record {
      version = current_version;
      generation = x.new_v4 n;
      pairing_endpoint = pairing_endpoint x config;
      report_endpoint = config.endpoint;
      host = host;
      bearer_secret = bearer;
      polling_secret = polling;
    }
    persist_state x (creating c)
    pure (create_start c)

  abbrev pub prepare_pending : HostIdentity → Time → Pending → Exec PairingStart
  prepare_pending host now p =
      let same = pairing_endpoints_match p.pairing_endpoint p.report_endpoint in
      if not config.replace_pending_pairing && ltb now p.expires_at && same
      then pure (waiting_start (session_of_pending p))
      else if not config.replace_pending_pairing && ltb now p.expires_at
      then throw (rejected different_server_pending)
      else if not config.replace_pending_pairing && same
      then pure (check_expired (session_of_pending p))
      else create_generation host

  abbrev pub prepare_creating : HostIdentity → Creating → Exec PairingStart
  prepare_creating host c =
      if not config.replace_pending_pairing
        && pairing_endpoints_match c.pairing_endpoint c.report_endpoint
      then pure (create_start c)
      else if not config.replace_pending_pairing
      then throw (rejected different_server_creating)
      else create_generation host

  -- The journal is completed first, whatever server it belongs to.
  unfoldable pub prepare_activating : HostIdentity → Activating → Exec PairingStart
  prepare_activating host a =
      finish_activating x (activating a)
      >> (if pairing_endpoints_match a.pairing_endpoint a.report_endpoint
          then pure (waiting_start (session_of_journal a))
          else create_generation host)

  abbrev pub prepare_from : HostIdentity → Time → Option StoredPairingState → Exec PairingStart
  prepare_from host now (some (pending p)) = prepare_pending host now p
  prepare_from host now (some (creating c)) = prepare_creating host c
  prepare_from host now (some (activating a)) = prepare_activating host a
  prepare_from host now (some (active s)) =
      load_current_active_binding x (binding_of_active s) >> create_generation host
  prepare_from host now s = create_generation host

  unfoldable pub prepare_start : HostIdentity → Exec PairingStart
  prepare_start host = do begin; now ← utc_now; state ← load_state x; prepare_from host now state

abbrev pub mode_for : HostIdentity → Text → PairMode
mode_for host id = if text_eq id host.id then recover_identity else fresh

module _ (x : Platform) where
  -- `inferred_mode`: the durable identity is the selected host's.
  unfoldable pub inferred_mode : HostIdentity → Exec PairMode
  inferred_mode host =
      try_else (open_reader >> from_state x) (λ id. pure (mode_for host id)) (λ e. pure fresh)

  abbrev same_mode : PairMode → PairMode → Bool
  same_mode fresh fresh = true
  same_mode fresh recover_identity = false
  same_mode recover_identity fresh = false
  same_mode recover_identity recover_identity = true

  unfoldable pub validate_requested_mode : HostIdentity → PairMode → Exec Unit
  validate_requested_mode host requested = do
    inferred ← inferred_mode host
    require (same_mode requested inferred) (rejected mode_mismatch)

  abbrev out_of_range : ℕ → ℕ → Bool
  out_of_range limit n = n == 0 || ltb limit n

  -- What the client does with the server's answer.
  unfoldable pub accept_created : Creating → CreatePairingResponse → Exec PairingSession
  accept_created c r = do
    require (not (out_of_range (7 * 24 * 60 * 60) r.expires_in)) (rejected invalid_expiration)
    require (not (out_of_range 300 r.poll_interval)) (rejected invalid_poll_interval)
    activation_url ← lift (resolve_activation_url x c.pairing_endpoint r.activation_url)
    lift (validate_activation_url_request x activation_url c.pairing_endpoint r.request_id)
    now ← utc_now
    let p = pending_of_response c r activation_url (now + r.expires_in)
    compare_and_persist_creating x c (pending p)
    pure (session_of_pending p)

  unfoldable pub finish_create_request : ClientConfig → Net → Creating → Exec PairingSession
  finish_create_request config net c = do
    lift (validate_state_version c.version)
    lift (validate_pairing_endpoint x c.pairing_endpoint)
    lift (validate_durable_report_endpoint x c.report_endpoint)
    require (x.client_builds config) (rejected client_unavailable)
    mode ← inferred_mode c.host
    response ← net (
        create_request c.pairing_endpoint mode c.host (sha256_hex x c.bearer_secret)
          (sha256_hex x c.polling_secret))
    lift (ensure_pairing_response x response (200 ∷ 201 ∷ []) create)
    created ← lift (parse_pairing_json x.parse_created response)
    accept_created c created
