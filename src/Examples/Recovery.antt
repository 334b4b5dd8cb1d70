-- ===== src/Examples/Recovery.antt =====
-- The theorems at concrete inputs, on the example platform.
use host_monitoring_client.Common.{◌≡◌, ◌⊎◌, refl, true, false, none, some, [], ◌∷◌, arith}
use host_monitoring_client.Common.Text.{
  Text, codes, trim, text_eq, byte_len, is_digit, is_whitespace, trim_start, len_utf8,
}
use host_monitoring_client.Exec.{World, completes, unconfirmed, ok}
use host_monitoring_client.Exec.Runs.{Post}
use host_monitoring_client.StateFiles.{Disk, pairing, binding, identity, authorization, credential}
use host_monitoring_client.StateStore.{over_budget}
use host_monitoring_client.Pairing.State.{
  Activating, activating, active, current_version, generation_of,
}
use host_monitoring_client.Pairing.Identity.{is_token, is_token_byte}
use host_monitoring_client.Pairing.Endpoints.{
  validate_durable_report_endpoint, validate_endpoint, is_trusted_https,
}
use host_monitoring_client.Pairing.Documents.{validate_active_binding}
use host_monitoring_client.Pairing.Documents.Printed.{decode-printed_state}
use host_monitoring_client.Pairing.Credentials.{
  binding_of_journal, active_of_journal, authorized_at, commit_activating,
}
use host_monitoring_client.Pairing.Credentials.Recovery.{
  Agrees, IsCommitted, Kept, commit_activating-IsCommitted,
}
use host_monitoring_client.Pairing.Credentials.Clean.{IsStorable}
use host_monitoring_client.Pairing.Commit.{recover_activating}
use host_monitoring_client.Pairing.Commit.Recovery.{
  HasJournal, Attempts, no_attempt, attempt, Completed, Attempts-Outcome, recovery_completes,
}
use host_monitoring_client.Examples.Codec.{frame-fits, frame-readable}
use host_monitoring_client.Examples.Documents.{state_body, binding_body, auth_body}
use host_monitoring_client.Examples.Bench.{bench, bench_laws}

abbrev pub reports : Text
reports = codes "https://monitor.example/v1/report"

abbrev pub journal : Activating
journal = record {
  version = current_version;
  generation = 5;
  request_id = 9;
  activation_url = codes "/activate/9";
  expires_at = 600;
  poll_interval = 5;
  instance_id = 77;
  pairing_endpoint = codes "/v1/pairing-requests";
  report_endpoint = reports;
  bearer_secret = codes "01020304050607080102030405060708010203040506070801020304050607ff";
}

journal_binding_valid : validate_active_binding bench (binding_of_journal journal) ≡ ok tt
unfolding validate_active_binding validate_durable_report_endpoint validate_endpoint
    is_trusted_https binding_of_journal text_eq
journal_binding_valid = refl

journal_token_valid : is_token journal.bearer_secret ≡ true
unfolding is_token is_token_byte is_digit byte_len
journal_token_valid = refl

journal_token_fits : over_budget credential (trim journal.bearer_secret) ≡ false
unfolding trim trim_start is_whitespace byte_len len_utf8
journal_token_fits = refl

journal-IsStorable : IsStorable bench journal
unfolding binding_of_journal authorized_at active_of_journal
journal-IsStorable = record {
  binding_valid = journal_binding_valid;
  token_valid = journal_token_valid;
  credential_fits = journal_token_fits;
  identity_fits = frame-fits identity (77 ∷ []) (omega arith);
  binding_fits = frame-fits binding (binding_body (binding_of_journal journal)) (omega arith);
  auth_fits = λ t. frame-fits authorization (auth_body (authorized_at t)) (omega arith);
  active_fits =
      λ t. frame-fits pairing (state_body (active (active_of_journal journal t))) (omega arith);
  active_readable =
      λ t. frame-readable pairing (state_body (active (active_of_journal journal t))) (omega arith);
}

-- A directory with the journal alone.
abbrev pub interrupted : Disk
interrupted = record {
  present = true;
  identity_file = none;
  credential_file = none;
  pairing_file = some (trim (bench.state_to_json (activating journal)));
  authorization_file = none;
  binding_file = none;
  archives = [];
}

interrupted-HasJournal : HasJournal bench bench_laws journal interrupted
unfolding generation_of
interrupted-HasJournal = record {
  text = trim (bench.state_to_json (activating journal));
  journal_file = refl;
  journal_fits = frame-readable pairing (state_body (activating journal)) (omega arith);
  journal_decoded = decode-printed_state bench bench_laws (activating journal) refl;
  journal_present = refl;
}

-- The process dies while it writes the binding: its write is durable, and it is not told so.
abbrev dying : World
dying = record {
  disk = interrupted;
  outcomes = completes ∷ completes ∷ completes ∷ completes ∷ completes ∷ unconfirmed ∷ [];
  now = 100;
  draws = 0;
}

abbrev after_death : Disk
after_death = (recover_activating bench (activating journal) dying).1.disk

one_attempt : Attempts bench bench_laws journal interrupted after_death
one_attempt = attempt no_attempt dying refl refl

abbrev restarted : World
restarted = record { disk = after_death; outcomes = []; now = 200; draws = 0 }

Attempts-Outcome_example :
    Agrees interrupted after_death ⊎ IsCommitted bench journal interrupted after_death
Attempts-Outcome_example =
    Attempts-Outcome bench bench_laws journal interrupted after_death interrupted-HasJournal
      one_attempt

recovery_completes_example :
    Post
      (Completed bench bench_laws journal interrupted)
      (λ _ _. ⊥)
      (recover_activating bench (activating journal) restarted)
recovery_completes_example =
    recovery_completes bench bench_laws journal journal-IsStorable interrupted after_death
      interrupted-HasJournal one_attempt restarted (refl, refl)

commit_activating-IsCommitted_example :
    Post
      (λ _ w. IsCommitted bench journal interrupted w.disk)
      (Kept (IsCommitted bench journal interrupted) interrupted)
      (commit_activating bench journal dying)
commit_activating-IsCommitted_example = commit_activating-IsCommitted bench journal dying
