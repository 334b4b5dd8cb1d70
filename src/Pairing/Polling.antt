-- ===== src/Pairing/Polling.antt =====
-- src/pairing/polling.rs, and `start_or_resume` of src/pairing/create.rs, which polls.
use host_monitoring_client.Common.{Bool, ◌&&◌, Option, none, some, [], ◌∷◌, ◌==◌, if◌then◌else◌}
use host_monitoring_client.Error.{
  Error, rejected, superseded, poll, client_unavailable, unexpected_instance_id,
  omitted_instance_id, malformed_response,
}
use host_monitoring_client.Exec.{
  Exec, Result, ok, err, pure, throw, lift, utc_now, ◌>>=◌, ◌>>◌, try_else,
}
use host_monitoring_client.Config.{ClientConfig}
use host_monitoring_client.StateStore.{begin}
use host_monitoring_client.Pairing.State.{
  Uuid, Time, HostIdentity, StoredPairingState, creating, pending, activating, denied, expired,
  Pending, Ended, PairingSession, PairingProgress, waiting, active_progress, denied_progress,
  expired_progress, current_version, progress_from_terminal,
}
use host_monitoring_client.Pairing.Platform.{
  Platform, status_waiting, status_active, status_denied, status_expired, PairingStatus,
}
use host_monitoring_client.Pairing.Endpoints.{
  validate_durable_report_endpoint, pairing_status_endpoint,
}
use host_monitoring_client.Pairing.Documents.{load_state, validate_state_version}
use host_monitoring_client.Pairing.Compare.{key_of_pending, compare_and_persist_pending}
use host_monitoring_client.Pairing.Commit.{persist_active_credentials, recover_activating}
use host_monitoring_client.Pairing.Http.{
  Net, HttpResponse, PairMode, poll_request, ensure_pairing_response, parse_pairing_json, ended_for,
}
use host_monitoring_client.Pairing.Create.{
  PairingStart, waiting_start, create_start, check_expired, require, session_of_pending,
  prepare_start, validate_requested_mode, finish_create_request,
}

-- The record of a request that ended without a credential.
unfoldable pub ended_of_pending : Pending → Time → Ended
ended_of_pending p now = record {
  version = current_version;
  generation = p.generation;
  request_id = p.request_id;
  activation_url = p.activation_url;
  report_endpoint = p.report_endpoint;
  completed_at = now;
}

module _ (x : Platform) where
  unfoldable pub mark_pending_expired : Pending → Exec PairingProgress
  mark_pending_expired p = do
    now ← utc_now
    compare_and_persist_pending x (key_of_pending p) (expired (ended_of_pending p now))
    pure (expired_progress p.generation p.request_id p.activation_url)

  unfoldable pub mark_pending_denied : Pending → Exec PairingProgress
  mark_pending_denied p = do
    now ← utc_now
    compare_and_persist_pending x (key_of_pending p) (denied (ended_of_pending p now))
    pure (denied_progress p.generation p.request_id p.activation_url)

  abbrev pub without_instance : Option Uuid → Exec Unit
  without_instance none = pure tt
  without_instance (some id) = throw (rejected unexpected_instance_id)

  abbrev pub activate_instance : Pending → Option Uuid → Exec PairingProgress
  activate_instance p none = throw (rejected omitted_instance_id)
  activate_instance p (some id) = persist_active_credentials x (pending p) id

  -- The four answers of the server.
  abbrev pub apply_status : Pending → PairingStatus → Option Uuid → Exec PairingProgress
  apply_status p status_waiting id = without_instance id >> pure (waiting (session_of_pending p))
  apply_status p status_active id = activate_instance p id
  apply_status p status_denied id = without_instance id >> mark_pending_denied p
  apply_status p status_expired id = without_instance id >> mark_pending_expired p

  -- A refusal ends the request only if it names it.
  abbrev pub refused : {A : Type 0} → Pending → Error → Exec A
  refused p e = if ended_for e p.request_id then (mark_pending_expired p >> throw e) else throw e

  abbrev pub accept_status : Pending → HttpResponse → Result Unit → Exec PairingProgress
  accept_status p response (err e) = refused p e
  accept_status p response (ok u) = lift (parse_pairing_json x.parse_status response) >>= λ polled.
      apply_status p polled.status polled.instance_id

  unfoldable pub poll_pending : ClientConfig → Net → Pending → Exec PairingProgress
  poll_pending config net p = do
    lift (validate_state_version p.version)
    lift (validate_durable_report_endpoint x p.report_endpoint)
    endpoint ← lift (pairing_status_endpoint x p.pairing_endpoint p.request_id)
    require (x.client_builds config) (rejected client_unavailable)
    require (x.header_accepts p.polling_secret) (rejected malformed_response)
    response ← net (poll_request endpoint p.polling_secret)
    accept_status p response (ensure_pairing_response x response (200 ∷ []) poll)

  abbrev pub poll_from :
      ClientConfig → Net → Option StoredPairingState → Exec (Option PairingProgress)
  poll_from config net none = pure none
  poll_from config net (some (creating c)) =
      finish_create_request x config net c >>= λ s. pure (some (waiting s))
  poll_from config net (some (activating a)) =
      recover_activating x (activating a) >>= λ p. pure (some p)
  poll_from config net (some (pending p)) = poll_pending config net p >>= λ r. pure (some r)
  poll_from config net (some s) = pure (some (progress_from_terminal s))

  unfoldable pub poll_existing : ClientConfig → Net → Exec (Option PairingProgress)
  poll_existing config net = do begin; state ← load_state x; poll_from config net state

  abbrev is_request : PairingSession → Uuid → Uuid → Bool
  is_request s generation request_id = generation == s.generation && request_id == s.request_id

  -- What a poll of the expired request says: `some` ends the command, `none` starts a new request.
  abbrev pub after_progress : PairingSession → Option PairingProgress → Exec (Option PairingSession)
  after_progress s (some (waiting current)) =
      if is_request s current.generation current.request_id
      then pure (some current)
      else throw superseded
  after_progress s (some (active_progress generation request_id instance_id report_endpoint)) =
      if is_request s generation request_id then pure (some s) else throw superseded
  after_progress s (some (denied_progress generation request_id activation_url)) =
      if is_request s generation request_id then pure none else throw superseded
  after_progress s (some (expired_progress generation request_id activation_url)) =
      if is_request s generation request_id then pure none else throw superseded
  after_progress s p = throw superseded

  abbrev pub after_failure : PairingSession → Error → Exec (Option PairingSession)
  after_failure s e = if ended_for e s.request_id then pure none else throw e

  module _ (config : ClientConfig) (host : HostIdentity) (net : Net) where
    abbrev pub start_again : PairingStart → Exec PairingSession
    start_again (waiting_start current) = pure current
    start_again (create_start c) = finish_create_request x config net c
    start_again (check_expired s) = throw superseded

    abbrev pub resume : Option PairingSession → Exec PairingSession
    resume (some s) = pure s
    resume none = prepare_start x config host >>= start_again

    abbrev pub start_from : PairingStart → Exec PairingSession
    start_from (waiting_start s) = pure s
    start_from (create_start c) = finish_create_request x config net c
    start_from (check_expired s) =
        try_else (poll_existing config net) (after_progress s) (after_failure s) >>= resume

    unfoldable pub start_or_resume_with_mode : PairMode → Exec PairingSession
    start_or_resume_with_mode mode = do
      validate_requested_mode x host mode
      start ← prepare_start x config host
      start_from start
