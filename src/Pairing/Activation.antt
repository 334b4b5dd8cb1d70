-- ===== src/Pairing/Activation.antt =====
-- src/pairing/activation_flow.rs: submitting the one-time authorization key, with the check of the key
-- from src/pairing_input.rs.
use host_monitoring_client.Common.{
  ℕ, Bool, false, ◌&&◌, ◌||◌, not, Option, none, some, [], ◌∷◌, ◌==◌, leb, if◌then◌else◌, all,
}
use host_monitoring_client.Common.Text.{Text, byte_len, is_whitespace, is_control}
use host_monitoring_client.Error.{
  rejected, superseded, activate, client_unavailable, activation_code_invalid, request_disappeared,
  no_longer_pending, activation_instance_mismatch,
}
use host_monitoring_client.Exec.{Exec, Result, ok, err, pure, throw, lift, ◌>>=◌, ◌>>◌}
use host_monitoring_client.Config.{ClientConfig}
use host_monitoring_client.StateStore.{begin, is_empty}
use host_monitoring_client.Pairing.State.{
  Uuid, StoredPairingState, pending, activating, active, Pending,
}
use host_monitoring_client.Pairing.Platform.{Platform}
use host_monitoring_client.Pairing.Endpoints.{
  validate_durable_report_endpoint, validate_activation_url_request, activation_endpoint,
}
use host_monitoring_client.Pairing.Documents.{load_state, validate_state_version}
use host_monitoring_client.Pairing.Credentials.{or_throw}
use host_monitoring_client.Pairing.Compare.{key_of_pending, ensure_pending_is_current}
use host_monitoring_client.Pairing.Http.{
  Net, HttpResponse, activate_request, ensure_pairing_response, parse_pairing_json,
}
use host_monitoring_client.Pairing.Create.{require}
use host_monitoring_client.Pairing.Polling.{refused}

abbrev is_plain : ℕ → Bool
is_plain c = not (is_whitespace c || is_control c)

unfoldable pub validate_activation_code : Text → Result Unit
validate_activation_code code =
    if not (is_empty code) && leb (byte_len code) 256 && all is_plain code
    then ok tt
    else err (rejected activation_code_invalid)

-- What the first look at the journal says: the request to submit, or the instance that it has already.
pub data Before : Type 0 where
  submit : Pending → Before
  already : Uuid → Before

module _ (x : Platform) (generation request_id : Uuid) where
  abbrev is_current : Uuid → Uuid → Bool
  is_current g r = g == generation && r == request_id

  abbrev pub look : StoredPairingState → Exec Before
  look (pending p) =
      lift (validate_state_version p.version)
      >> (if is_current p.generation p.request_id then pure (submit p) else throw superseded)
  look (activating a) =
      if is_current a.generation a.request_id
      then pure (already a.instance_id)
      else throw (rejected no_longer_pending)
  look (active s) =
      if is_current s.generation s.request_id
      then pure (already s.instance_id)
      else throw (rejected no_longer_pending)
  look s = throw (rejected no_longer_pending)

  unfoldable pub before_activation : Exec Before
  before_activation = do
    begin
    state ← load_state x
    s ← or_throw state (rejected request_disappeared)
    look s

  -- HTTP 409 is ambiguous: the server may have committed an attempt whose answer was lost.
  abbrev pub accept_activated : Pending → HttpResponse → Result Unit → Exec (Option Uuid)
  accept_activated p response (err e) = refused x p e
  accept_activated p response (ok u) =
      lift (parse_pairing_json x.parse_activated response) >>= λ id. pure (some id)

  unfoldable pub activated_instance : Pending → HttpResponse → Exec (Option Uuid)
  activated_instance p response =
      if response.status == 409
      then pure none
      else accept_activated p response (ensure_pairing_response x response (200 ∷ []) activate)

  abbrev pub differs : Option Uuid → Uuid → Bool
  differs none id = false
  differs (some activated) id = not (activated == id)

  abbrev pub confirm : Option Uuid → Uuid → Exec (Option Uuid)
  confirm activated id =
      if differs activated id then throw (rejected activation_instance_mismatch) else pure (some id)

  -- The second look, under the lock again.
  abbrev pub look_again : Pending → Option Uuid → StoredPairingState → Exec (Option Uuid)
  look_again p activated (pending q) =
      ensure_pending_is_current x (key_of_pending p) >> pure activated
  look_again p activated (activating a) =
      if is_current a.generation a.request_id
      then confirm activated a.instance_id
      else throw superseded
  look_again p activated (active s) =
      if is_current s.generation s.request_id
      then confirm activated s.instance_id
      else throw superseded
  look_again p activated s = throw superseded

  unfoldable pub after_activation : Pending → Option Uuid → Exec (Option Uuid)
  after_activation p activated = do
    begin
    state ← load_state x
    s ← or_throw state (rejected request_disappeared)
    look_again p activated s

  unfoldable pub submit_code : ClientConfig → Net → Text → Pending → Exec (Option Uuid)
  submit_code config net code p = do
    lift (validate_durable_report_endpoint x p.report_endpoint)
    lift (validate_activation_url_request x p.activation_url p.pairing_endpoint request_id)
    endpoint ← lift (activation_endpoint x p.pairing_endpoint)
    require (x.client_builds config) (rejected client_unavailable)
    response ← net (activate_request endpoint request_id code)
    activated ← activated_instance p response
    after_activation p activated

  abbrev pub activate_before : ClientConfig → Net → Text → Before → Exec (Option Uuid)
  activate_before config net code (already id) = pure (some id)
  activate_before config net code (submit p) = submit_code config net code p

  unfoldable pub activate_pending_with_code : ClientConfig → Net → Text → Exec (Option Uuid)
  activate_pending_with_code config net code = do
    lift (validate_activation_code code)
    before ← before_activation
    activate_before config net code before
