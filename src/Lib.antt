-- ===== src/Lib.antt =====
-- PULSE, the adaptive event pipeline of src/triage: what each event is worth, what is done with it
-- under pressure, and what is remembered about it.
--
-- An event is admitted (Admission), deduplicated (Dedup) and queued; a worker dequeues it and decides
-- (Worker: Decision, then Ladder with the state of Codel). What is served is checkpointed until it is
-- done (Checkpoint), what waits is parked (Deferral), and every decision is written to the audit chain
-- (Ledger). Config holds the tier table that all of them read, Costmodel learns what an event costs, and
-- Metrics counts where each event is. Engine owns these parts, feeds them from the Generator, and has
-- the controls of a running system.
--
--   Contracts.antt   src/triage/contracts.py   Tier, EventType, Decision, Event
--   Decision.antt    src/triage/decision.py    score, pressure, decide, batch_size, batch_cost
--   Ladder.antt      src/triage/ladder.py      Rung, MAX_RUNG, cap, escalate; Ladder/Reservoir.antt
--                                              has ReservoirSampler.add and reset
--   Codel.antt       src/triage/codel.py       CoDelController.update and reset
--   Config.antt      src/triage/config.py      Config, its derived quantities, verify
--   Admission.antt   src/triage/admission.py   CreditBucket and AdmissionControl
--   Dedup.antt       src/triage/dedup.py       BloomFilter and Deduplicator
--   Checkpoint.antt  src/triage/checkpoint.py  CheckpointStore
--   Deferral.antt    src/triage/deferral.py    DeferralStore, and one turn of run_drainer
--   Ledger.antt      src/triage/ledger.py      SQLiteLedger.record and verify_chain
--   Costmodel.antt   src/triage/costmodel.py   RunningEstimate and CostModel
--   Metrics.antt     src/triage/metrics.py     the observation points; Metrics/Rate.antt has _Ewma,
--                                              Metrics/State.antt the variables,
--                                              Metrics/Current.antt the pressure and reset, and
--                                              Metrics/Pipeline.antt the steps of an event
--   Queue.antt       src/triage/queue.py       EventQueue: _enqueue, _take_adaptive; Queue/Naive.antt
--                                              has _take_naive, task_done and clear
--   Worker.antt      src/triage/worker.py      WorkerPool._resolve; Worker/Pool.antt, Worker/Serving.antt,
--                                              Worker/Handling.antt and Worker/Running.antt have the
--                                              workers, from one await to the next
--   Sink.antt        src/triage/sink.py        SQLiteSink: events_sink; Sink/Rollups.antt and
--                                              Sink/Outcomes.antt have the other two tables
--   Transport.antt   src/triage/transport.py   class Transport; Transport/Acks.antt has its acks,
--                                              Transport/Sweep.antt dispatch and redispatch_expired, and
--                                              Transport/Batcher.antt the batcher with its queue
--   Servers.antt     src/triage/servers_config.py  capacities; Servers/Parse.antt has _parse
--   Server1.antt     src/triage/server1.py     P0Queue, the worker's turn, /ingest and /drain
--   Classifier.antt  src/triage/classifier.py  class Classifier
--   Generator.antt   src/triage/generator.py   class EventGenerator: one emission, emit_single, retry
--   Engine.antt      src/triage/app.py         class Engine in one process: _ingest, reset, the controls
--   Server2.antt     src/triage/server2.py     P1P2Queue with its own selection; Server2/State.antt,
--                                              Server2/Serving.antt, Server2/Handling.antt and
--                                              Server2/Endpoints.antt have the nested
--                                              functions of create_server2_app
--
-- The children of each file hold the proofs, under the name of what they are about. Base has the
-- shared names and lemmas, and Examples the concrete inputs.
--
-- State is passed explicitly: an operation takes the record of its object and returns the new record,
-- with its answer. The clock is an argument. SQLite tables are lists of rows with the constraints that
-- their statements name; a row's JSON text is taken as the event that it encodes. Python's ints are
-- the native numbers, or the integers of Base/Int where they can be negative.
--
-- Floats are an interface (Base/Float): Floats has the operations, IsFloat the laws of rounded
-- arithmetic that a theorem uses (order, signs, monotonicity). There is no exactness and no
-- associativity among the laws. NaN is left out. Base/Scaled gives decimal fractions of six places,
-- which satisfy the laws, and on which the examples run. SHA-256, the printing of numbers and
-- round(x, 4) are parameters (Ledger.Printing, Dedup.Hashes), and no property of them is assumed.
--
-- The JSON of an event is written and read by pydantic, a parameter of Sink.antt. In Transport.antt the
-- delivery function and the other coroutines are a parameter (Wire): it says which deliveries raise and
-- which batches and acks arrive while one is awaited.
--
-- Two definitions run on fuel: the loops that fill a batch (Server2/Handling.antt and
-- Worker/Handling.antt), whose fuel is one more than the queue holds. Each turn of them takes an event
-- from the queue or ends (Server2/Filling.antt, Worker/Fuel.antt). All other loops of
-- the modelled code are over finite lists or counts.
--
-- In Metrics/Pipeline.antt the order of the queue and the choices of the workers are left to the
-- environment: a step takes any event from where it is. 0.5 ** x and the truncation of floats are
-- parameters (Metrics/Rate.antt, Costmodel.antt).
--
-- In Worker/Pool.antt the sink's writer is a parameter, which may raise, and so is == of events. The
-- record of a pool has a field that the program has not: what became of each event that left it.
-- In Server1.antt a seq is taken to belong to one event, so that the heap never asks for < of events.
--
-- Not modelled: the frame of the metrics, the HTTP between the servers and the endpoints of app.py, the
-- storage adapters, and the reports. The worker of server2 is modelled between two calls
-- of the clock, without other coroutines in between; its calls of ingress are values (Post).
pub mod Base
pub mod Contracts
pub mod Decision
pub mod Ladder
pub mod Codel
pub mod Config
pub mod Admission
pub mod Dedup
pub mod Checkpoint
pub mod Deferral
pub mod Ledger
pub mod Costmodel
pub mod Metrics
pub mod Queue
pub mod Worker
pub mod Sink
pub mod Transport
pub mod Servers
pub mod Server2
pub mod Server1
pub mod Classifier
pub mod Generator
pub mod Engine
pub mod Examples
