-- ===== src/UnitTests/Supervising.antt =====
-- src/supervisor.rs: the tests of the supervisor. Its factories spawn in the context of the actor that
-- holds it; the test's sends to that actor are calls of its handlers' bodies in this context.
use native.Mathlib.Decide.{ℕ_discrete}
use actinium_actor.Prelude.{ℕ, ◌≡◌, refl, true, not, List, [], ◌∷◌, ◌++◌, ◌==◌, length}
use actinium_actor.HashMap.{get, insert, remove}
use actinium_actor.Outcome.{Outcome, returned, panicked, ◌>>=◌}
use actinium_actor.Actor.Spawner
use actinium_actor.Actor.{Types, Code, Script, done, read, write}
use actinium_actor.Actor.Store.{Env, allocate_id, pick_worker}
use actinium_actor.Actor.Exec.{Context, End, finished, unwound, exec, with_spawner}
use actinium_actor.Runtime
use actinium_actor.Supervisor.{
  Supervisor, ChildFactory, one_for_one, new, register_child, start_all, handle_failure, children,
  restart_count, give_up,
}
use actinium_actor.UnitTests.{assert}

-- The actor with the supervisor, and the children of the tests; `child` logs that it has started.
data AnyActor : Type 0 where
  sup_actor test_child : AnyActor
  child : ℕ → AnyActor

abbrev types : Types
types = record { World = List ℕ; Any = AnyActor; Kind = ℕ; Msg = Unit {0}; Val = Unit {0} }

abbrev type_of : AnyActor → ℕ
type_of sup_actor = 0
type_of test_child = 1
type_of (child id) = 2

abbrev started : AnyActor → Script types AnyActor
started (child id) = read (λ log. write (log ++ id ∷ []) (done (child id)))
started actor = done actor

abbrev program : Code
program = record {
  types = types;
  type_of = type_of;
  kind_discrete = ℕ_discrete;
  started = started;
  stopped = λ actor. done actor;
  handle = λ actor msg. done (actor, tt);
}

-- The context of a handler and what it shares.
abbrev C : Type 0
C = Context × Env types

-- `started` of the children does not panic, so that the identifier 0 is not reached.
abbrev spawned_id : Context → Env types × End types ℕ → ℕ × C
spawned_id ctx (env, finished id ctx') = (id, (ctx', env))
spawned_id ctx (env, unwound actor m) = (0, (ctx, env))

-- `|ctx| ctx.spawn(actor).id()`
unfoldable spawning : AnyActor → ChildFactory C
spawning actor (ctx, env) =
    spawned_id ctx
      (exec program (Script.spawn sup_actor (started actor) (λ addr. done addr.actor_id)) ctx env)

abbrev start_env : Env types
start_env = record {
  world = [];
  channels = [];
  replies = [];
  next_reply = 0;
  shared = record {
    control_txs = [];
    msg_txs = [];
    actor_maps = [];
    next_id = 1;
    next_worker = 0;
    num_workers = 0;
    running = true;
  };
}

-- `Runtime::with_threads(1)`, and the context of the actor that is spawned on it.
unfoldable new_tested : Outcome C
new_tested = do
  let (env, r) = Runtime.with_threads 0 1 start_env
  rt ← r
  let (env', r') = Runtime.spawn program sup_actor rt env
  (rt', addr) ← r'
  returned (with_spawner addr.actor_id 0, env')

unfoldable one_for_one_restarts_failed_child : Outcome (Unit {0})
one_for_one_restarts_failed_child = do
  ctx ← new_tested
  let (sup, (_, env)) = start_all (register_child (spawning (child 42)) (new one_for_one 3)) ctx
  assert (length env.world == 1)

unfoldable supervisor_registers_and_starts_children : Outcome (Unit {0})
supervisor_registers_and_starts_children = do
  ctx ← new_tested
  let registered = register_child (λ ctx'. (100, ctx')) (new one_for_one 3)
  let (sup, _) = start_all (register_child (λ ctx'. (200, ctx')) registered) ctx
  assert (length (children sup) == 2)

-- An index out of range panics.
abbrev first : List ℕ → Outcome ℕ
first [] = panicked "index out of bounds"
first (id ∷ ids) = returned id

-- The supervisor of one spawning factory, after `start_all`.
abbrev supervising : ℕ → Outcome (Supervisor C × C)
supervising max_restarts = do
  ctx ← new_tested
  returned (start_all (register_child (spawning test_child) (new one_for_one max_restarts)) ctx)

unfoldable one_for_one_restart_within_limit : Outcome (Unit {0})
one_for_one_restart_within_limit = do
  (sup, ctx) ← supervising 3
  _ ← assert (length (children sup) == 1)
  child_id ← first (children sup)
  (sup', restarted, ctx') ← handle_failure child_id sup ctx
  _ ← assert (length restarted == 1)
  new_id ← first restarted
  assert (not (new_id == child_id))

unfoldable one_for_one_stops_after_max_restarts : Outcome (Unit {0})
one_for_one_stops_after_max_restarts = do
  (sup, ctx) ← supervising 2
  child_id ← first (children sup)
  (sup1, result1, ctx1) ← handle_failure child_id sup ctx
  _ ← assert (length result1 == 1)
  new_id ← first result1
  (sup2, result2, ctx2) ← handle_failure new_id sup1 ctx1
  _ ← assert (length result2 == 1)
  last_id ← first result2
  (sup3, result3, ctx3) ← handle_failure last_id sup2 ctx2
  assert (length result3 == 0)

-- No assertion of the tests fails.
tests_pass :
    (one_for_one_restarts_failed_child ≡ returned tt)
    × (supervisor_registers_and_starts_children ≡ returned tt)
    × (one_for_one_restart_within_limit ≡ returned tt)
    × (one_for_one_stops_after_max_restarts ≡ returned tt)
unfolding one_for_one_restarts_failed_child supervisor_registers_and_starts_children
    one_for_one_restart_within_limit one_for_one_stops_after_max_restarts new_tested spawning
    Runtime.with_threads Runtime.spawn with_spawner exec new register_child start_all handle_failure
    restart_count give_up get insert remove allocate_id pick_worker Spawner.spawn_actor_direct
tests_pass = (refl, refl, refl, refl)
