-- ===== src/Lib.antt =====
-- A model of the host monitoring client: how a host gets a credential from a server through a browser, keeps
-- it on disk and hands it to the reporting loop, and how a reading of the hardware becomes a bounded report
-- that is queued on disk and delivered.
--
-- The parts, and where they stand (paths from the repository's root):
--   * `StateFiles`, `StateStore` (src/state_store.rs): the private directory with its five files. `Disk` is
--     what the directory holds; `StateReader::read`, `StateTransaction::begin`, `write` and `archive` are
--     `read`, `begin`, `write` and `archive`. A transaction holds the directory's lock, so that what stands
--     between `begin` and the next network request is one step for other processes.
--   * `Exec`: fallible code over a `World`, that is the directory, the outcomes of the next file operations,
--     the clock and the draws of random bytes. An operation completes, fails with no effect, or fails
--     after its effect was made durable; a crash of the process is a failure at the next operation.
--     `Exec.Runs` has the rules that the proofs use.
--   * `Pairing.State`, `Pairing.Documents` (src/pairing/state.rs, state_storage.rs, state_io.rs): the journal
--     `StoredPairingState` with its six phases, the active binding and the authorization state, how they
--     are decoded, validated, loaded and written.
--   * `Pairing.Compare` (src/pairing/state_io.rs): the compare-and-swap operations that keep a late answer
--     from replacing a newer request.
--   * `Pairing.Credentials`, `Pairing.Commit` (src/pairing/credentials.rs, commit_flow.rs): the commit of an
--     approved request (credential, identity, binding, authorization, and `Active` last) and its recovery.
--   * `Pairing.Create`, `Pairing.Polling`, `Pairing.Activation` (src/pairing/create.rs, polling.rs,
--     activation_flow.rs) with `Pairing.Endpoints` (src/config.rs, src/pairing/activation.rs) and
--     `Pairing.Http` (src/pairing/client.rs, mod.rs): the requests to the server.
--   * `Pairing.Local`, `Pairing.Status` (src/pairing/local.rs, src/transport.rs): the reporters that the
--     loop runs with, and the read-only views.
--   * `Pairing.Identity` (src/client_identity.rs, src/transport.rs): identities and the form of a token.
--   * `Pairing.Origin`: the invariant that a token stays with the endpoint that it was generated for.
--   * `Transport` (src/transport.rs): `Transport.Send` is the sending of one report, of a queued one too, and
--     `classify_xsos_response`, `validate_xsos_ack` and `retry_after_delay` read the server's answer;
--     `Transport.Binding` asks if the server still accepts the credential.
--   * `Spool` (src/spool.rs): the queue of reports over xcsc's spool, with the loop of `oldest`.
--   * `Delivery` (src/monitor_app/delivery): `run_once`, which composes the spool and the sending, the
--     disposition of a report that failed, `schedule_next` of the sampling cadence, and in `Delivery.Driver`
--     `classify_failure`, which composes the sending with the stored credential. `Delivery.Composed` is
--     `run_once` with the sending of `Transport.Send`.
--   * `ReportContract` (src/report_contract.rs): the text bounds, and in `ReportContract.Fit` the loops of
--     `fit_body`.
--   * `Collectors` (src/collectors): `PdhBuffer`, `PdhRecovery`, `DiskRates` and `Gpu`, the pure parts of the
--     collection of readings.
--   * `Examples`: a platform that can be run, and the theorems at concrete inputs.
--
-- What the program calls and does not implement is the record `Pairing.Platform.Platform`: the JSON codec,
-- the uuid, url and sha2 crates, the random source, the response types. `PlatformLaws` states the two facts
-- of them that the proofs use: a printed document is read back, also after it was trimmed, and carries the
-- supported format; the uuid crate reads what it prints. The network is a function `Net`: it may fail,
-- answer anything, and let other processes change the directory.
--
-- Spool, delivery and reports have parameters of their own: `Spool.Inner` is xcsc's spool, whose operations
-- can fail before or after their effect, with `InnerLaws` for its order; `ReportFormat` and `Wire` are the
-- JSON forms of a report and of its acknowledgement; `Transport.Send.Post` is the HTTP client over a state of
-- the network that it may change as it likes, so that a request is one change of that state; `Surroundings` is what `run_once` meets, a shutdown at
-- any of its waits included; `Fit.Measure` is the length of a report's JSON and the rounded product of
-- floating point numbers that `shrink` aims at, of which nothing is assumed.
--
-- A text is its list of code points. Times are seconds in pairing and nanoseconds in `PdhRecovery`. The
-- attempts of `local_status` are a recursion on the number of attempts that are left, three at first. Fuel
-- stands for the loops of `oldest`, `run_once` and `fit_body`: the number of pending records, of stored
-- reports, or of readings is enough, since every pass takes one away.
-- Not modelled: the readers of operating-system interfaces, the tasks of the delivery driver, the
-- configuration file, the command line and the Windows maintenance service, which read and drive the
-- operating system; floating point values; error texts of pairing are the constructors of `Error`.
pub mod Common
pub mod StateFiles
pub mod Error
pub mod Exec
pub mod StateStore
pub mod Url
pub mod Config
pub mod Pairing
pub mod Transport
pub mod Spool
pub mod Delivery
pub mod Collectors
pub mod ReportContract
pub mod Examples
