-- ===== src/Lib.antt =====
-- Actinium-Actor: a small actor runtime. Actors own a state and handle messages one at a time;
-- messages are envelopes with a closure, sent by typed addresses over channels. There are two
-- runtimes, `ActorSystem` on one thread and `Runtime` with worker threads, whose workers each have a
-- round-robin `Scheduler`; a `Supervisor` restarts children, and a `StateMachine` wraps an actor
-- whose handler goes round a sequence of states.
--
-- - HashMap: `std::collections::HashMap`, as an association list with one entry for each key.
-- - Envelope: src/envelope.rs. The closure is a parameter; Actor/Store says what it captures.
-- - Scheduler: src/scheduler.rs, function by function; `turn` is the round of `Worker::run`
--   (src/runtime.rs). Mail says what the operations do to the messages that wait, Invariant what holds
--   between turns, Turn what one turn does; History has sequences of arrivals, turns and removals, and
--   Fairness how long an actor waits.
-- - Outcome: what a call that may panic comes to.
-- - Supervisor: src/supervisor.rs, function by function, over factories that may change the context
--   and return an identifier. Restart has the two strategies, Limit `max_restarts`, Isolation the
--   children that do not fail, and Shift what dropping a child does to those behind it.
-- - Actor: src/actor.rs, src/addr.rs, src/context.rs and src/spawner.rs. The program of the crate's
--   user is a parameter, `Code`: a hook or a handler is a `Script`, the calls of the crate that it makes
--   in order with what it does with each result; it may panic, and it reads and writes what the
--   actors share outside the crate. Store has the channels, `Addr` and the shared state for spawning,
--   Exec the context and the run of a script, Call the closures of envelopes and of `on_stop`,
--   Spawner the actor maps of the workers. Frame, Replies and Silent prove what scripts leave alone.
-- - System: src/system.rs. `dispatch`, `spawn` and the removals; Loop has `run` and `run_once`.
--   Dispatching, Answers, Shell and Identity are about one dispatch or spawn; Drain, Progress and Return
--   about what the loops leave and when they end, Typing about the casts of the closures.
-- - StateMachine: src/stateful.rs.
-- - Worker: `Worker` of src/runtime.rs. An iteration of its loop is a step; Receive has the
--   channels, and Turn relates the iteration to the scheduler's histories. Run has the loop, with
--   what other threads do before each iteration; Held, Sound and Serving prove what every step
--   keeps, Forever what holds after any number of iterations. Dropped is the end of the thread, and
--   Closed is about its channel. Log has the messages that a worker dispatches; Backlog, Order and
--   Fifo prove the order in which it does; Answers, Settled, Oldest and Fair prove when who waits
--   in `send` has an answer, Logged that who waits for a message of the log has one. Survives says
--   what an iteration keeps, and Admission is about the spawns that wait in the control channel.
-- - Runtime: `Runtime` of src/runtime.rs. A spawn panics where a shutdown in the worker's
--   control channel is in the way of its confirmation; otherwise the worker confirms it in its next
--   iteration, and its caller, who waits for that in the code, may go on before.
--   Placement says what the workers start with and where actors are put, Threads and Sound what the
--   start and the spawns keep, Sent what a spawn sends to a worker. Steps has the runtime as a step
--   relation, with the iterations of its workers, the spawns and the sends in any order; Admission
--   is about what a spawn waits for. Join has `Runtime::run`, whose threads end one after the
--   other, and Dropped its `Drop`.
-- - TestKit: src/testkit.rs. Idle is about `run_until_idle`, Probe has the probes, and Records what
--   they record.
-- - Text, ActorId: texts as lists of code points, with what the source uses of `String`, and the
--   identifiers of src/actor.rs with their print.
-- - Demo: the actors of examples/ping_pong.rs, examples/multi_thread.rs, examples/state_machine.rs and
--   src/main.rs.
-- - Console: the actors of examples/console.rs. Worker, Meta and Command have one actor each, and
--   Program the three together; Total, Typed, Lifecycle and Recording prove what they do.
-- - UnitTests: the tests in src/scheduler.rs, src/stateful.rs, src/supervisor.rs, src/system.rs,
--   src/runtime.rs (Threads has their actors and the steps of the threads, Runs the tests),
--   src/testkit.rs and tests/integration.rs, each as the outcome of its assertions on the model, in one
--   order of the threads' steps. Kits has what the tests with a `TestKit` share.
-- - Examples: the theorems at concrete inputs.
--
-- A panic is a value: `Outcome`, or `unwound` at the end of a script, with the message and the
-- actor as the panic left it. A blocked `send` is split in two: `send` posts the envelope with a
-- reply channel, `receive_reply` reads what came. The identifiers are 64-bit integers that wrap; so
-- do the counts of the demonstration and console actors. Additions wrap as in a release build; a
-- debug build panics at 2^64, and the theorems on them stay below it. Indices and counts of
-- restarts stay below a length or a limit and are natural numbers. `run_once` takes fuel, one unit
-- for each message that it processes and one for the last look; `run` follows a schedule, the order
-- in which other threads send, drop their addresses, and the loop receives. `run_until_idle` has
-- what other threads do before each of its passes. An iteration of a worker takes what waits in its
-- channel at once, and `late` is what others send while it waits. The order in which a map gives
-- its keys is a parameter.
--
-- Not modelled: threads and locks beyond the order of their steps; blocking sends within a hook or
-- a handler (`Context::send`, src/context.rs 45-52, and `Addr::send`, of which src/addr.rs says
-- that it deadlocks there), so that what is said of blocking holds for programs without them; a
-- factory of a supervisor that panics; the main functions of the demonstration programs and all
-- printing on the console; what is dropped where a `stopped` panics on a worker thread; what a test
-- measures of time; lower case beyond ASCII, which is a parameter.
pub mod Prelude
pub mod HashMap
pub mod Text
pub mod ActorId
pub mod Envelope
pub mod Scheduler
pub mod Outcome
pub mod Supervisor
pub mod Actor
pub mod System
pub mod StateMachine
pub mod Worker
pub mod Runtime
pub mod TestKit
pub mod Demo
pub mod Console
pub mod UnitTests
pub mod Examples
