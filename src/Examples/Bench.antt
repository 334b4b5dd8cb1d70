-- ===== src/Examples/Bench.antt =====
-- A platform that can be run, with one server, one host and one request.
use host_monitoring_client.Common.{ℕ, ◌+◌, refl, true, false, Option, none, some, List, [], ◌∷◌}
use host_monitoring_client.Common.Text.{Text, codes}
use host_monitoring_client.Url.{Url}
use host_monitoring_client.Pairing.State.{Uuid, persisted_state_format}
use host_monitoring_client.Pairing.Platform.{Platform, PlatformLaws, status_active}
use host_monitoring_client.Examples.Codec.{frame, trim-frame}
use host_monitoring_client.Examples.Documents.{
  state_body, state_from, state_from-body, binding_body, binding_from, binding_from-body, auth_body,
  auth_from, auth_from-body, unframed, unframed-frame,
}

abbrev server : Url
server = record {
  scheme = codes "https";
  username = [];
  password = none;
  host_str = some (codes "monitor.example");
  port_or_known_default = some 443;
  path = codes "/v1/pairing-requests";
  query = none;
  fragment = none;
}

-- A UUID is printed as one framed number.
abbrev uuid_text : Uuid → Text
uuid_text u = frame (u ∷ [])

abbrev uuid_of : Text → Option Uuid
uuid_of [] = none
uuid_of (a ∷ []) = none
uuid_of (a ∷ (u ∷ r)) = some u

abbrev pub secret_bytes : List ℕ
secret_bytes =
    1 ∷ 2 ∷ 3 ∷ 4 ∷ 5 ∷ 6 ∷ 7 ∷ 8 ∷ 1 ∷ 2 ∷ 3 ∷ 4 ∷ 5 ∷ 6 ∷ 7 ∷ 8 ∷ 1 ∷ 2 ∷ 3 ∷ 4 ∷ 5 ∷ 6 ∷ 7 ∷ 8
    ∷ 1 ∷ 2 ∷ 3 ∷ 4 ∷ 5 ∷ 6 ∷ 7 ∷ 255 ∷ []

abbrev pub bench : Platform
bench = record {
  header_version = λ t. some (some persisted_state_format);
  state_to_json = λ s. frame (state_body s);
  state_from_json = unframed state_from;
  binding_to_json = λ b. frame (binding_body b);
  binding_from_json = unframed binding_from;
  auth_to_json = λ a. frame (auth_body a);
  auth_from_json = unframed auth_from;
  uuid_to_text = uuid_text;
  uuid_from_text = uuid_of;
  new_v4 = λ n. n + 1;
  random_bytes = λ n. some secret_bytes;
  sha256 = λ t. secret_bytes;
  parse_url = λ t. some server;
  join_url = λ base t. some server;
  url_to_text = λ u. u.path;
  push_segments = λ u segments. some u;
  set_path = λ u path. record u { path = path };
  client_report_path = codes "/v1/report";
  client_pairing_requests_path = codes "/v1/pairing-requests";
  activation_path_prefix = codes "/activate/";
  header_accepts = λ t. true;
  client_builds = λ config. true;
  parse_envelope = λ t. some (record {
    code = codes "pairing_transaction_expired";
    retryable = false;
    received = none;
    message = codes "refused";
    request_id = codes "4";
    supported = [];
    details_request_id = some (uuid_text 9);
  });
  parse_created = λ t. some (record {
    request_id = 9;
    activation_url = codes "/activate/9";
    expires_in = 600;
    poll_interval = 5;
  });
  parse_status = λ t. some (record { status = status_active; instance_id = some 77 });
  parse_activated = λ t. some 77;
}

pub bench_laws : PlatformLaws bench
bench_laws = record {
  state_version = λ s. refl;
  state_round_trip = λ s. unframed-frame state_from (state_body s) s (state_from-body s (125 ∷ []));
  binding_version = λ b. refl;
  binding_round_trip =
      λ b. unframed-frame binding_from (binding_body b) b (binding_from-body b (125 ∷ []));
  auth_version = λ a. refl;
  auth_round_trip = λ a. unframed-frame auth_from (auth_body a) a (auth_from-body a (125 ∷ []));
  uuid_trimmed = λ u. trim-frame (u ∷ []);
  uuid_round_trip = λ u. refl;
}
