-- ===== src/Examples/Tokens.antt =====
-- The theorems on tokens, stale writers and answers at concrete inputs.
use host_monitoring_client.Common.{◌≡◌, ◌⊎◌, refl, inr, true, false, none, some, [], ◌∷◌}
use host_monitoring_client.Common.Text.{Text, codes, trim, text_eq, is_whitespace, trim_start}
use host_monitoring_client.Config.{ClientConfig}
use host_monitoring_client.Error.{poll, http}
use host_monitoring_client.Exec.{World, pure}
use host_monitoring_client.Exec.Runs.{Runs-pure, Post}
use host_monitoring_client.StateFiles.{pairing}
use host_monitoring_client.StateStore.{archive}
use host_monitoring_client.StateStore.Laws.{At}
use host_monitoring_client.StateStore.Archive.{Archived, Saved, archive-Archived}
use host_monitoring_client.Pairing.State.{
  HostIdentity, Pending, Creating, activating, pending, creating, current_version, generation_of,
}
use host_monitoring_client.Pairing.Identity.{is_token}
use host_monitoring_client.Pairing.Documents.Printed.{decode-printed_state}
use host_monitoring_client.Pairing.Documents.{load_state}
use host_monitoring_client.Pairing.Documents.Restored.{
  Loaded, Restored, Unstorable, Either, stored_and_loaded, load_state-persist_state,
}
use host_monitoring_client.Pairing.Credentials.{invalidate}
use host_monitoring_client.Pairing.Credentials.Invalidation.{
  Invalidated, Interrupted, invalidate-Invalidated,
}
use host_monitoring_client.Pairing.Http.{Net, HttpResponse, fresh, hex}
use host_monitoring_client.Pairing.Origin.{Bound, Always}
use host_monitoring_client.Pairing.Origin.Start.{NetBound}
use host_monitoring_client.Pairing.Origin.Poll.{poll_existing-Bound}
use host_monitoring_client.Pairing.Activation.{activate_pending_with_code}
use host_monitoring_client.Pairing.Origin.Activation.{activate_pending_with_code-Bound}
use host_monitoring_client.Pairing.Origin.Resume.{start_or_resume_with_mode-Bound}
use host_monitoring_client.Pairing.Origin.Snapshots.{
  Snapshot, existing_reporter_for_run-Owned, refresh_reporter_snapshot-Owned,
  reporter_snapshot_for_current_active_state-Owned,
}
use host_monitoring_client.Pairing.Local.{
  existing_reporter_for_run, refresh_reporter_snapshot, reporter_snapshot_for_current_active_state,
}
use host_monitoring_client.Pairing.Polling.{poll_existing, start_or_resume_with_mode}
use host_monitoring_client.Examples.Codec.{frame}
use host_monitoring_client.Examples.Bench.{bench, bench_laws}
use host_monitoring_client.Common.{ap}
use host_monitoring_client.Common.Text.{before, to_ascii_lowercase, lower}
use host_monitoring_client.Pairing.Documents.Laws.{as_option}
use host_monitoring_client.Pairing.Compare.{
  key_of_pending, compare_and_persist_pending, compare_and_persist_creating,
}
use host_monitoring_client.Pairing.Compare.Laws.{
  PendingSwapped, CreatingSwapped, Untouched, compare_and_persist_pending-Swapped,
  compare_and_persist_creating-Swapped,
}
use host_monitoring_client.Pairing.Http.{
  http_error, ended_for, transaction_ended_for, transaction_missing, transaction_expired,
  trusted_code, response_content_type, content_type_for_diagnostics,
}
use host_monitoring_client.Pairing.Http.Refusals.{EndsRequest, ended_for-EndsRequest}
use host_monitoring_client.Pairing.Http.Secrets.{hex-IsToken}
use host_monitoring_client.Examples.Bench.{secret_bytes}
use host_monitoring_client.Examples.Recovery.{reports, journal, interrupted}

-- The client's configuration, and what a token was generated for.
abbrev config : ClientConfig
config = record { endpoint = reports; pairing_endpoint = none; replace_pending_pairing = false }

abbrev For : Text → Text → Type 0
For token endpoint = endpoint ≡ reports

abbrev details : Text → HostIdentity
details id = record {
  id = id;
  os = codes "linux";
  os_version = none;
  kernel_version = none;
  arch = codes "x86_64";
  client_version = codes "1.0.0";
}

abbrev host : HostIdentity
host = details (frame (77 ∷ []))

-- A server that always approves.
approves : Net
approves request =
    pure (record { status = 200; content_type = some (codes "application/json"); body = [] })

approves-NetBound : NetBound bench bench_laws For approves
unfolding approves
approves-NetBound request = Runs-pure _ (λ w p. p)

-- The process starts where a commit was interrupted.
abbrev starting : World
starting = record { disk = interrupted; outcomes = []; now = 100; draws = 0 }

starting-Bound : Bound bench bench_laws For interrupted
unfolding generation_of
starting-Bound =
    inr (
      journal,
      ap as_option (decode-printed_state bench bench_laws (activating journal) refl),
      refl,
    )

poll_existing-Bound_example :
    Post
      (Always bench bench_laws For)
      (Always bench bench_laws For)
      (poll_existing bench config approves starting)
poll_existing-Bound_example =
    poll_existing-Bound bench bench_laws For config approves approves-NetBound starting
      starting-Bound

start_or_resume_with_mode-Bound_example :
    Post
      (Always bench bench_laws For)
      (Always bench bench_laws For)
      (start_or_resume_with_mode bench config host approves fresh starting)
start_or_resume_with_mode-Bound_example =
    start_or_resume_with_mode-Bound bench bench_laws For config (λ n b h. refl) host approves
      approves-NetBound fresh starting starting-Bound

activate_pending_with_code-Bound_example :
    Post
      (Always bench bench_laws For)
      (Always bench bench_laws For)
      (activate_pending_with_code bench 5 9 config approves (codes "code") starting)
activate_pending_with_code-Bound_example =
    activate_pending_with_code-Bound bench bench_laws For 5 9 config approves approves-NetBound
      (codes "code") starting starting-Bound

existing_reporter_for_run-Owned_example :
    Post
      (Snapshot bench details bench_laws For config)
      (Always bench bench_laws For)
      (existing_reporter_for_run bench details config starting)
existing_reporter_for_run-Owned_example =
    existing_reporter_for_run-Owned bench details bench_laws For config starting starting-Bound

refresh_reporter_snapshot-Owned_example :
    Post
      (Snapshot bench details bench_laws For config)
      (Always bench bench_laws For)
      (refresh_reporter_snapshot bench details config (1, 2) starting)
refresh_reporter_snapshot-Owned_example =
    refresh_reporter_snapshot-Owned bench details bench_laws For config (1, 2) starting
      starting-Bound

reporter_snapshot_for_current_active_state-Owned_example :
    Post
      (Snapshot bench details bench_laws For config)
      (Always bench bench_laws For)
      (reporter_snapshot_for_current_active_state bench details config starting)
reporter_snapshot_for_current_active_state-Owned_example =
    reporter_snapshot_for_current_active_state-Owned bench details bench_laws For config starting
      starting-Bound

-- A rejected token, and writers that come too late.
invalidate-Invalidated_example :
    Post
      (Invalidated bench (5, 9) (codes "rejected") interrupted)
      (λ _. Interrupted bench (5, 9) (codes "rejected") interrupted)
      (invalidate bench (5, 9) (codes "rejected") starting)
invalidate-Invalidated_example =
    invalidate-Invalidated bench (5, 9) (codes "rejected") interrupted starting refl

abbrev request : Pending
request = record {
  version = current_version;
  generation = 5;
  request_id = 9;
  activation_url = codes "/activate/9";
  expires_at = 600;
  poll_interval = 5;
  pairing_endpoint = codes "/v1/pairing-requests";
  report_endpoint = reports;
  bearer_secret = journal.bearer_secret;
  polling_secret = journal.bearer_secret;
}

abbrev created_request : Creating
created_request = record {
  version = current_version;
  generation = 5;
  pairing_endpoint = codes "/v1/pairing-requests";
  report_endpoint = reports;
  host = host;
  bearer_secret = journal.bearer_secret;
  polling_secret = journal.bearer_secret;
}

-- A directory with the request alone.
abbrev requested : World
requested = record starting {
  disk = record interrupted { pairing_file = some (trim (bench.state_to_json (pending request))) };
}

compare_and_persist_pending-Swapped_example :
    Post
      (λ _. PendingSwapped bench (key_of_pending request) (activating journal) requested.disk)
      (λ _ w.
        Untouched bench requested.disk w
        ⊎ PendingSwapped bench (key_of_pending request) (activating journal) requested.disk w)
      (compare_and_persist_pending bench (key_of_pending request) (activating journal) requested)
compare_and_persist_pending-Swapped_example =
    compare_and_persist_pending-Swapped bench (key_of_pending request) (activating journal)
      requested

abbrev creation : World
creation = record starting {
  disk = record interrupted {
    pairing_file = some (trim (bench.state_to_json (creating created_request)));
  };
}

compare_and_persist_creating-Swapped_example :
    Post
      (λ _. CreatingSwapped bench created_request (pending request) creation.disk)
      (λ _ w.
        Untouched bench creation.disk w
        ⊎ CreatingSwapped bench created_request (pending request) creation.disk w)
      (compare_and_persist_creating bench created_request (pending request) creation)
compare_and_persist_creating-Swapped_example =
    compare_and_persist_creating-Swapped bench created_request (pending request) creation

archive-Archived_example :
    Post
      (Archived (λ n. true) pairing (codes "old.json") interrupted)
      (λ _ w. At interrupted w ⊎ Saved pairing (codes "old.json") interrupted w.disk)
      (archive (λ n. true) pairing (codes "old.json") starting)
archive-Archived_example = archive-Archived (λ n. true) pairing (codes "old.json") starting

-- A refusal that names the request 9.
abbrev gone : HttpResponse
gone = record { status = 410; content_type = some (codes "application/json"); body = [] }

gone_ends : ended_for (http (http_error bench gone poll)) 9 ≡ true
unfolding ended_for transaction_ended_for transaction_missing transaction_expired http_error
    trusted_code response_content_type content_type_for_diagnostics text_eq trim trim_start
    is_whitespace before to_ascii_lowercase lower
gone_ends = refl

ended_for-EndsRequest_example : EndsRequest bench gone 9
ended_for-EndsRequest_example = ended_for-EndsRequest bench gone poll 9 gone_ends

hex-IsToken_example : is_token (hex secret_bytes) ≡ true
hex-IsToken_example = hex-IsToken secret_bytes refl refl

load_state-persist_state_example :
    Post
      (Restored bench bench_laws (pending request) interrupted)
      (λ _. Either bench bench_laws (pending request) interrupted)
      (stored_and_loaded bench bench_laws (pending request) starting)
    × Post
        (Restored bench bench_laws (pending request) interrupted)
        (λ _ _. Unstorable bench bench_laws (pending request))
        (stored_and_loaded bench bench_laws (pending request) starting)
    × Post (Loaded bench interrupted) (λ _. At interrupted) (load_state bench starting)
load_state-persist_state_example =
    load_state-persist_state bench bench_laws (pending request) starting starting (refl, refl)
