-- ===== src/UnitTests/Threads.antt =====
-- src/runtime.rs: the tests of the worker threads, each in one order of the threads' steps: a worker
-- makes an iteration after each spawn and each send, and the shutdown comes last. What is asserted
-- about time is left out.
use native.Mathlib.Decide.{ℕ_discrete}
use actinium_actor.Prelude.{
  ℕ, zero, suc, ◌+◌, Bool, true, false, Option, none, some, List, [], ◌∷◌, ◌++◌, ◌==◌, get_elem?,
  set,
}
use actinium_actor.Outcome.{Outcome, returned, panicked, ◌>>=◌}
use actinium_actor.Actor.{
  Types, Code, Script, Addr, SendResult, sent, failed, done, panics, read, write,
}
use actinium_actor.Actor.Store.{Env, send, receive_reply}
use actinium_actor.Actor.Call.{type_mismatch}
use actinium_actor.Worker.{Worker, Next, goes_on, returns, iteration}
use actinium_actor.Runtime
use actinium_actor.Runtime.{Runtime}
use actinium_actor.Runtime.Join
use actinium_actor.Runtime.Dropped

-- The actors of the tests.
pub data AnyActor : Type 0 where
  counter_actor fair_actor : ℕ → AnyActor
  lifecycle_actor parent_actor child_actor panic_actor : AnyActor

pub data AnyMessage : Type 0 where
  increment ping work spawn_child trigger_panic : AnyMessage

pub data Reply : Type 0 where
  number : ℕ → Reply
  nothing : Reply

-- What the tests share with their actors behind locks.
pub record Shared : Type 0 where
  pub started : Bool
  pub stopped : Bool
  pub processed : List ℕ
  pub child_count : ℕ

abbrev pub types : Types
types = record { World = Shared; Any = AnyActor; Kind = ℕ; Msg = AnyMessage; Val = Reply }

abbrev pub type_of : AnyActor → ℕ
type_of (counter_actor n) = 0
type_of (fair_actor id) = 1
type_of lifecycle_actor = 2
type_of parent_actor = 3
type_of child_actor = 4
type_of panic_actor = 5

abbrev pub started : AnyActor → Script types AnyActor
started lifecycle_actor = read (λ w. write (record w { started = true }) (done lifecycle_actor))
started actor = done actor

abbrev pub stopped : AnyActor → Script types AnyActor
stopped lifecycle_actor = read (λ w. write (record w { stopped = true }) (done lifecycle_actor))
stopped actor = done actor

-- A message that its actor has no handler for does not get here.
abbrev pub handle : AnyActor → AnyMessage → Script types (AnyActor × Reply)
handle (counter_actor count) increment = done (counter_actor (count + 1), number (count + 1))
handle (fair_actor id) work =
    read
      (λ w. write (record w { processed = w.processed ++ id ∷ [] }) (done (fair_actor id, nothing)))
handle lifecycle_actor ping = done (lifecycle_actor, nothing)
handle parent_actor spawn_child = Script.spawn parent_actor (done child_actor) (λ addr.
    read (λ w. write (record w { child_count = w.child_count + 1 }) (done (parent_actor, nothing))))
handle panic_actor trigger_panic = panics panic_actor "deliberate panic in actor"
handle actor msg = panics actor type_mismatch

abbrev pub program : Code
program = record {
  types = types;
  type_of = type_of;
  kind_discrete = ℕ_discrete;
  started = started;
  stopped = stopped;
  handle = handle;
}

abbrev pub Tested : Type 0
Tested = Runtime types × Env types

abbrev pub start_env : Env types
start_env = record {
  world = record { started = false; stopped = false; processed = []; child_count = 0 };
  channels = [];
  replies = [];
  next_reply = 0;
  shared = record {
    control_txs = [];
    msg_txs = [];
    actor_maps = [];
    next_id = 1;
    next_worker = 0;
    num_workers = 0;
    running = true;
  };
}

-- `Runtime::with_threads(n)`: worker `i` has channel `i`.
unfoldable pub with_threads : ℕ → Outcome Tested
with_threads n = do let (env, r) = Runtime.with_threads 0 n start_env; rt ← r; returned (rt, env)

abbrev stepped : ℕ → Runtime types → Env types × Outcome (Next types) → Outcome Tested
stepped i rt (env, panicked m) = panicked m
stepped i rt (env, returned (returns w)) = panicked "the worker has returned"
stepped i rt (env, returned (goes_on w)) = returned (record { handles = set rt.handles i w }, env)

abbrev step_on : ℕ → Option (Worker types) → Tested → Outcome Tested
step_on i none (rt, env) = panicked "no such worker"
step_on i (some w) (rt, env) = stepped i rt (iteration program (λ l. l) [] w env)

-- An iteration of worker `i`.
unfoldable pub step : ℕ → Tested → Outcome Tested
step i (rt, env) = step_on i (get_elem? rt.handles i) (rt, env)

unfoldable pub steps : ℕ → ℕ → Tested → Outcome Tested
steps i zero s = returned s
steps i (suc n) s = do s' ← step i s; steps i n s'

-- `rt.spawn(actor)`, which the worker confirms.
unfoldable pub spawn : AnyActor → Tested → Outcome (Tested × Addr types)
spawn actor (rt, env) = do
  let (env', r) = Runtime.spawn program actor rt env
  (rt', addr) ← r
  s ← step addr.tx (rt', env')
  returned (s, addr)

abbrev answered :
    Addr types
    → Runtime types
    → Env types × SendResult ℕ
    → Outcome (Tested × Option (SendResult Reply))
answered addr rt (env, failed e) = returned ((rt, env), some (failed e))
answered addr rt (env, sent k) = do s ← step addr.tx (rt, env); returned (s, receive_reply k s.1)

-- `addr.send(msg)` of a worker that has nothing else to do.
unfoldable pub ask : Addr types → AnyMessage → Tested → Outcome (Tested × Option (SendResult Reply))
ask addr msg (rt, env) = answered addr rt (send addr msg env)

unfoldable pub ask_many : ℕ → Addr types → AnyMessage → Tested → Outcome Tested
ask_many zero addr msg s = returned s
ask_many (suc n) addr msg s = do (s', _) ← ask addr msg s; ask_many n addr msg s'

abbrev joined : Env types × Option (Outcome (Unit {0})) → Outcome (Env types)
joined (env, none) = panicked "the threads do not end"
joined (env, some (panicked m)) = panicked m
joined (env, some (returned _)) = returned env

-- `rt.run()`
unfoldable pub run : Tested → Outcome (Env types)
run (rt, env) = joined (Join.run program (λ l. l) (λ e. e) rt env)

abbrev dropped : Env types × Option (Unit {0}) → Outcome (Env types)
dropped (env, none) = panicked "the threads do not end"
dropped (env, some _) = returned env

-- `drop(rt)`
unfoldable pub drop : Tested → Outcome (Env types)
drop (rt, env) = dropped (Dropped.drop program (λ l. l) (λ e. e) rt env)

abbrev pub is_number : ℕ → Option (SendResult Reply) → Bool
is_number n (some (sent (number m))) = m == n
is_number n _ = false

abbrev pub is_ok : Option (SendResult Reply) → Bool
is_ok (some (sent v)) = true
is_ok _ = false
