-- ===== src/UnitTests/Systems.antt =====
-- src/system.rs: the tests of the runtime on one thread. The thread of the system receives each message
-- before the test goes on, since the test waits for the answer.
use native.Mathlib.Decide.{ℕ_discrete}
use actinium_actor.Prelude.{
  ℕ, zero, suc, ◌+◌, ◌≡◌, refl, Bool, true, false, ◌&&◌, Option, none, some, List, [], ◌∷◌, ◌++◌,
  ◌==◌, length,
}
use actinium_actor.HashMap.{get, insert, remove, keys}
use actinium_actor.Outcome.{Outcome, returned, panicked, ◌>>=◌}
use actinium_actor.Text.{Text, text, same}
use actinium_actor.Actor.{
  Types, Code, Script, Addr, done, panics, stop, read, write, SendResult, sent, failed,
}
use actinium_actor.Actor.Store.{
  Env, receive_reply, channel_send, send_reply, drop_reply, drop_envelope,
}
use actinium_actor.Actor.Exec.{new, exec, is_running, stop_context}
use actinium_actor.Actor.Call.{type_mismatch, call_dispatch, call_on_stop}
use actinium_actor.System.{ActorSystem, new_system, spawn, dispatch, try_recv, stop_all_actors}
use actinium_actor.System.Loop.{Event, posts, hangs_up, receives, run, hang_up}
use actinium_actor.UnitTests.{assert}

-- The actors of the tests.
data AnyActor : Type 0 where
  counter_actor : ℕ → AnyActor
  echo_actor stop_actor collector_actor start_actor shutdown_actor : AnyActor

data AnyMessage : Type 0 where
  increment get_count die ping : AnyMessage
  echo collect : Text → AnyMessage

data Reply : Type 0 where
  number : ℕ → Reply
  words : Text → Reply
  nothing : Reply

-- What the tests share with their actors behind locks.
record Shared : Type 0 where
  messages : List Text
  flag : Bool

abbrev types : Types
types = record { World = Shared; Any = AnyActor; Kind = ℕ; Msg = AnyMessage; Val = Reply }

abbrev type_of : AnyActor → ℕ
type_of (counter_actor n) = 0
type_of echo_actor = 1
type_of stop_actor = 2
type_of collector_actor = 3
type_of start_actor = 4
type_of shutdown_actor = 5

abbrev raise_flag : AnyActor → Script types AnyActor
raise_flag actor = read (λ w. write (record w { flag = true }) (done actor))

abbrev started : AnyActor → Script types AnyActor
started start_actor = raise_flag start_actor
started actor = done actor

abbrev stopped : AnyActor → Script types AnyActor
stopped shutdown_actor = raise_flag shutdown_actor
stopped actor = done actor

-- A message that its actor has no handler for does not get here.
abbrev handle : AnyActor → AnyMessage → Script types (AnyActor × Reply)
handle (counter_actor count) increment = done (counter_actor (count + 1), number (count + 1))
handle (counter_actor count) get_count = done (counter_actor count, number count)
handle echo_actor (echo s) = done (echo_actor, words s)
handle stop_actor die = stop (done (stop_actor, nothing))
handle collector_actor (collect s) =
    read
      (λ w. write (record w { messages = w.messages ++ s ∷ [] }) (done (collector_actor, nothing)))
handle start_actor ping = done (start_actor, nothing)
handle shutdown_actor ping = done (shutdown_actor, nothing)
handle actor msg = panics actor type_mismatch

abbrev program : Code
program = record {
  types = types;
  type_of = type_of;
  kind_discrete = ℕ_discrete;
  started = started;
  stopped = stopped;
  handle = handle;
}

abbrev Tested : Type 0
Tested = ActorSystem types × Env types

-- `ActorSystem::new()`, with the channel 0.
unfoldable new_tested : Tested
new_tested = (
  new_system 0,
  record {
    world = record { messages = []; flag = false };
    channels = (0, record { queue = []; clients = true; receiver = true }) ∷ [];
    replies = [];
    next_reply = 0;
    shared = record {
      control_txs = [];
      msg_txs = [];
      actor_maps = [];
      next_id = 1;
      next_worker = 0;
      num_workers = 0;
      running = true;
    };
  },
)

unfoldable spawn_tested : AnyActor → Tested → Outcome (Tested × Addr types)
spawn_tested actor (sys, env) = do
  let (env', r) = spawn program actor sys env
  (sys', addr) ← r
  returned ((sys', env'), addr)

-- `addr.send(msg)`, whose answer comes on reply channel `k`.
unfoldable send : ℕ → Addr types → AnyMessage → List (Event types)
send k addr msg =
    posts (record {
      actor_id = addr.actor_id;
      dispatch = record { kind = addr.kind; msg = msg; reply = some k };
    })
    ∷ receives
    ∷ []

abbrev joined : Env types × Option (Outcome (ActorSystem types)) → Outcome (Env types)
joined (env, none) = panicked "the thread does not end"
joined (env, some (panicked m)) = panicked m
joined (env, some (returned sys)) = returned env

-- `run_in_thread(system)` while the test sends, until the test has dropped its addresses and joined.
unfoldable run_in_thread : List (Event types) → Tested → Outcome (Env types)
run_in_thread events (sys, env) =
    joined (run program (λ l. l) (events ++ hangs_up ∷ receives ∷ []) sys env)

abbrev is_number : ℕ → Option (SendResult Reply) → Bool
is_number n (some (sent (number m))) = m == n
is_number n _ = false

abbrev is_words : Text → Option (SendResult Reply) → Bool
is_words t (some (sent (words s))) = same s t
is_words t _ = false

abbrev is_ok : Option (SendResult Reply) → Bool
is_ok (some (sent v)) = true
is_ok _ = false

abbrev is_err : Option (SendResult Reply) → Bool
is_err (some (failed e)) = true
is_err _ = false

unfoldable spawn_and_send_message : Outcome (Unit {0})
spawn_and_send_message = do
  (s, addr) ← spawn_tested (counter_actor 0) new_tested
  env ← run_in_thread (send 0 addr increment ++ send 1 addr increment ++ send 2 addr get_count) s
  _ ← assert (is_number 1 (receive_reply 0 env))
  _ ← assert (is_number 2 (receive_reply 1 env))
  assert (is_number 2 (receive_reply 2 env))

unfoldable actor_stop_from_context : Outcome (Unit {0})
actor_stop_from_context = do
  (s, addr) ← spawn_tested stop_actor new_tested
  env ← run_in_thread (send 0 addr die ++ send 1 addr die) s
  _ ← assert (is_ok (receive_reply 0 env))
  assert (is_err (receive_reply 1 env))

unfoldable multiple_actors_communicate_via_notify : Outcome (Unit {0})
multiple_actors_communicate_via_notify = do
  (s, collector) ← spawn_tested collector_actor new_tested
  (s', echoing) ← spawn_tested echo_actor s
  env ←
      run_in_thread
        (send 0 echoing (echo (text "ping")) ++ send 1 collector (collect (text "done"))) s'
  _ ← assert (is_words (text "ping") (receive_reply 0 env))
  _ ← assert (is_ok (receive_reply 1 env))
  assert (length env.world.messages == 1)

unfoldable actor_started_called : Outcome (Unit {0})
actor_started_called = do
  (s, addr) ← spawn_tested start_actor new_tested
  env ← run_in_thread [] s
  assert env.world.flag

unfoldable actor_stopped_called_on_drop : Outcome (Unit {0})
actor_stopped_called_on_drop = do
  (s, addr) ← spawn_tested shutdown_actor new_tested
  env ← run_in_thread [] s
  assert env.world.flag

unfoldable send_to_nonexistent_actor : Outcome (Unit {0})
send_to_nonexistent_actor = do
  (s, addr) ← spawn_tested echo_actor new_tested
  _ ← run_in_thread [] s
  returned tt

-- The sends from the `i`-th on, and their answers.
unfoldable send_many : ℕ → ℕ → Addr types → List (Event types)
send_many i zero addr = send i addr get_count
send_many i (suc n) addr = send i addr increment ++ send_many (i + 1) n addr

unfoldable are_numbers : ℕ → ℕ → Env types → Bool
are_numbers i zero env = is_number i (receive_reply i env)
are_numbers i (suc n) env = is_number (i + 1) (receive_reply i env) && are_numbers (i + 1) n env

unfoldable many_messages_to_actor : Outcome (Unit {0})
many_messages_to_actor = do
  (s, addr) ← spawn_tested (counter_actor 0) new_tested
  env ← run_in_thread (send_many 0 100 addr) s
  assert (are_numbers 0 100 env)

-- No assertion of the tests fails.
tests_pass :
    (spawn_and_send_message ≡ returned tt)
    × (actor_stop_from_context ≡ returned tt)
    × (multiple_actors_communicate_via_notify ≡ returned tt)
    × (actor_started_called ≡ returned tt)
    × (actor_stopped_called_on_drop ≡ returned tt)
    × (send_to_nonexistent_actor ≡ returned tt)
unfolding spawn_and_send_message actor_stop_from_context multiple_actors_communicate_via_notify
    actor_started_called actor_stopped_called_on_drop send_to_nonexistent_actor spawn_tested spawn
    new_tested new_system exec run_in_thread run send try_recv get channel_send insert dispatch
    call_dispatch ℕ_discrete new send_reply call_on_stop is_running drop_reply drop_envelope
    receive_reply keys remove stop_all_actors hang_up stop_context
tests_pass = (refl, refl, refl, refl, refl, refl)

many_messages_to_actor_lem : many_messages_to_actor ≡ returned tt
unfolding many_messages_to_actor send_many are_numbers spawn_tested spawn new_tested new_system exec
    run_in_thread run send try_recv get channel_send insert dispatch call_dispatch ℕ_discrete new
    send_reply call_on_stop is_running drop_reply drop_envelope receive_reply keys remove
    stop_all_actors hang_up stop_context
many_messages_to_actor_lem = refl
