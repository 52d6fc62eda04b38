-- ===== src/Lib.antt =====
-- SumiCore (hedp): a home energy and device platform, which reads devices through adapters, keeps
-- what it reads as observations with a quality, and judges intents without carrying them out.
--
-- The parts, and how they interact.
--   Prelude: shared tests on numbers, lists, integers, bytes, sorting, texts, JSON and results.
--   Observations: src/hedp/observations.py. `Quality`, `ObservationTime` and `ObservedValue` with the
--     checks of their constructors; the adapters' normalizers produce them.
--   SmartLedz: src/hedp/adapters/smartledz. Framing is framing.py (`encode_frames`, `decode_frame`,
--     `reassemble`); Envelope is normalizer.py and models.py (`normalize_resource_response`);
--     Messages is messages.py (`correlate_read_responses`, by the request IDs of the frames); Reader
--     is reader.py; Commands is read_commands.py; State is state.py, whose loops over rows are one loop
--     here (`collect_rows`), with a reader of a row for each kind of item.
--   Ecocute: src/hedp/adapters/ecocute. Echonet and Maps are echonet.py (`build_get_request`,
--     `parse_frame`, the property maps and the known properties); State is state.py, which makes an
--     observation of a parsed frame.
--   Modbus: src/hedp/adapters/fusionsolar. Socket is `_receive_exact` and Client the rest of
--     modbus_tcp.py; Collector is modbus_collector.py, which reads ranges through a client; Profile
--     is modbus_profiles.py, which decodes what the collector has read.
--   Warema: src/hedp/adapters/warema/protocol.py. Protocol is `decode_frame`, Stream `FrameStream`.
--   Miele: src/hedp/adapters/miele/sse.py, `parse_sse`.
--   GasQueue: src/hedp/adapters/fusionsolar/gas_queue_importer.py. Envelope reads the files of a queue
--     (`_candidates`, `_read`), Request is `_validate_request` and `_reject_secrets`, Energy is
--     energy_balance_record_builder.py, whose checks a payload must pass; GasQueue itself holds the rows
--     and receipts, Store `_compare` and `run` on them, Importer the whole of `run`.
--   Metrics: src/hedp/operations/operational_metrics.py. Metrics holds the vocabulary and the metrics,
--     Records `_is_valid_metric_record`, Journal the files (`_rotate_if_needed`, `_append_bytes`), Lock
--     `_exclusive_lock` as steps of processes, and Summary `summarize_operational_metrics`.
--   Cutover: src/hedp/operations/post_cutover.py. Cutover reads a snapshot's facts, makes the findings on
--     them and counts these; Verdict is what the status means, Supplied the making of a snapshot.
--   Execution/Shadow: src/hedp/operations/shadow_execution.py. The gate, the registry of operation
--     IDs and the audit events.
--   A directory's Examples and Readings hold runs of the code on small inputs.
--
-- How the code is rendered. A call that raises returns `err` of the component's own errors, one
-- constructor for each message. State is passed: a registry, a client and a stream come in as
-- arguments and go out with the result, also where a call raises. `bytes` are numbers below 256, a
-- text is its code points where single characters matter, a frozenset or a dict is the list of its
-- elements. The checks by `isinstance` are the types of the arguments; an `int` that the code tests for
-- a sign is an integer.
--
-- Bounds and fuel. `_receive_exact` runs for as many rounds as bytes are wanted, since each round
-- that goes on has received one; `FrameStream.feed` for as many as the buffer has bytes, since each
-- takes one off. Every other loop follows a list or a count.
--
-- Parameters. What a socket, a resolver, a clock, `datetime.fromisoformat`, `json.loads`, SHA-256,
-- the UTF-8 codec, the range of floats, the equality of two dictionaries and Unicode's case tables do
-- is an argument of the definitions that use it.
--
-- A database is its rows and receipts; a transaction that is rolled back returns the one it was given,
-- and `run` takes the database twice, as it is read first and as it is once it is locked. A file is what
-- the calls on it return.
--
-- Not modelled: HTTP sessions, the SQL of SQLite, the command line, scheduling and reports, which
-- are input and output around these parts; the normalizers of the other devices (Miele, Qrio,
-- Bravia, SwitchBot); the qualification of a Modbus run and the importer of reports;
-- src/hedp/intelligence and the preflight; the archive under src/hedp/storage; the daily health
-- report; and of the metrics journal how its private directory is prepared and what a detached
-- lock holds. The JSON files of a queue's path come in already listed and sorted, and a send on a
-- socket that fails counts as none. A quotient of floats is kept as its two operands
-- (Modbus/Profile).
pub mod Prelude
pub mod SmartLedz
pub mod Ecocute
pub mod Warema
pub mod Modbus
pub mod Miele
pub mod GasQueue
pub mod Metrics
pub mod Cutover
pub mod Execution
pub mod Observations
