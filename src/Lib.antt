-- ===== src/Lib.antt =====
-- A verification library for the telemetry system of this repository, above all its agent: the path
-- of a log line from the pipeline's queues to the committed offset, of telemetry from the publish
-- buffer to the backend's ingest guard, and of an alert from its rule to the delivered callback.
--
-- The program and its modules. Paths are below apps/agent/src/telemetry_agent,
-- where they do not start with apps.
--   Pipeline    pipeline/bounded_queue.py, pipeline/deduper.py, pipeline/committer.py,
--               logs/offset_tracker.py and LogMonitor.ack_line of logs/log_monitor.py. The reader puts
--               parsed events into a bounded queue (BoundedQueue), the committer drains it, asks the
--               deduper about each event (Deduper), records its result in the sink and commits the
--               offset of the line's end (Offsets). Committer composes the three.
--   Publishing  publishing/buffer.py, batch.py, outcome.py, publisher.py. BackendPublisher takes the
--               oldest items from a buffer bounded in bytes and age (Buffer), builds a batch (Batch),
--               sends it, classifies the answer (Outcome) and acts on it (Publisher).
--   Callbacks   callbacks/status.py, queue.py, retry.py, dispatcher.py, delivery_wire.py. The dispatcher
--               sends an alert's callback up to maxAttempts times (Dispatcher) and records each step
--               in the tracker (Tracker).
--   Rules       rules/types.py, rules/engine.py and rules/baseline.py: what the rules read of a snapshot
--               (Snapshot), which tier a value matches (Tiers), how an alert goes from inactive over
--               pending to firing, resolving and back (Engine), the rolling baseline of the anomaly rules
--               (Baseline), and evaluate and apply_rules, which put these together (Evaluate).
--   Metrics     metrics/correlation.py, which measures the latency between an order and its responses
--               (Correlator), and the histogram of packages/telemetry_shared that agent and backend share
--               (Histogram).
--   Health      health/window.py: the counter of a sliding window (Window).
--   Sessions    parser/fix/seq_tracker.py and parser/fix/session_tracker.py: the sequence numbers of each
--               FIX session (Gaps), and the detector that reports a silent session once (Silence).
--   Backend     apps/backend/src/telemetry_backend/services: the guard that recognises a batch that comes
--               again and limits the batches of an agent (IngestGuard, ingest_guard.py), the agents that
--               are known and when each was last heard of (Registry, agent_registry.py), the alerts of
--               every instance (AlertStore, alert_store.py), and the rule that watches the heartbeats,
--               which reads the registry and writes to the alert store (HeartbeatMonitor,
--               heartbeat_monitor.py).
--   Runtime     common/backoff.py and common/self_metrics.py, which Publishing and Callbacks use.
--   Common      Boolean tests, equality as an interface, lists measured by native numbers, Python's
--               dict as an association list in insertion order.
-- In each component the module Defs has the state as a record, one function for each method, under the
-- source's name, and the modules beside it have the theorems; Tests has concrete runs.
--
-- Numbers. Times are whole microseconds (or clock ticks, where only comparisons matter), sizes are
-- bytes; Python's integers are unbounded, so no operation wraps around. Where the source subtracts
-- times and compares, the model adds on the other side of the comparison. The back-off's factor and
-- jitter are thousandths. Thresholds and metrics, Python's Decimal, are a type given with its
-- operations, on numbers other than NaN (with which the code's comparisons raise); the latencies of a
-- histogram are whole microseconds. The back-off's power is exact, and stands for the code's float while
-- it is below 2 ^ 1024, as HasFloatPower of Runtime.Backoff says.
--
-- Concurrency. A method that runs under a lock is one function. Where a method waits without the lock,
-- what it finds afterwards is an argument: the schedule of wake-ups of a blocking put or get, the items
-- that arrive while the publisher awaits its response. The delivery of one alert is modelled without
-- other deliveries in between. evaluate_once of the heartbeat monitor, which runs in a thread and takes no
-- lock of its own, is one step: heartbeats that arrive during an evaluation are not
-- interleaved with it.
--
-- Loops are structural recursion: over the list that a loop walks or empties, over the schedule of
-- wake-ups, over the attempts that remain. No definition has fuel.
--
-- Exceptions. A function that can raise returns an option, with nothing where the code raises; what the
-- code changed before it raised is then not modelled.
--
-- From outside come, as arguments: the clock's readings, the SHA-256 digest, the order of a Python set,
-- the arithmetic of Decimal with the median and rounding, the checker of schedules, UUIDs, random numbers, the answers of the HTTP
-- transport, the length of a JSON text, Python's str of an integer. The hook of a failed delivery may
-- raise; the other hooks are taken to return.
--
-- Not modelled: file and network input and output, configuration files, log messages, threads and
-- signals, the parsers (but for the session trackers), the metrics aggregator, the percentiles of a
-- histogram, the text and the metric context of an alert, the queries and the ingestion service of the
-- backend, the bot, the simulator and the other clients.
pub mod Common
pub mod Runtime
pub mod Pipeline
pub mod Publishing
pub mod Callbacks
pub mod Rules
pub mod Sessions
pub mod Backend
pub mod Metrics
pub mod Health
