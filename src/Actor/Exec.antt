-- ===== src/Actor/Exec.antt =====
-- src/context.rs: the context, and what a script does to it and to the shared state.
use Prim.Native.String.{String}
use actinium_actor.Prelude.{ℕ, Bool, true, false}
use actinium_actor.Outcome.{Outcome, returned, panicked}
use actinium_actor.Actor.{
  Types, Code, Addr, Script, done, panics, stop, self_id, spawn, read, write,
}
use actinium_actor.Actor.Store.{SpawnShared, Env, do_send, allocate_id}
use actinium_actor.Actor.Spawner.{spawn_actor_direct}

-- `spawn_shared`: whether there is a handle of the state for spawning, which is in `Env`.
pub record Context : Type 0 where
  pub actor_id : ℕ
  pub running : Bool
  pub spawn_shared : Bool
  pub worker_idx : ℕ

unfoldable pub new : ℕ → Context
new actor_id = record { actor_id = actor_id; running = true; spawn_shared = false; worker_idx = 0 }

unfoldable pub with_spawner : ℕ → ℕ → Context
with_spawner actor_id worker_idx = record {
  actor_id = actor_id;
  running = true;
  spawn_shared = true;
  worker_idx = worker_idx;
}

unfoldable pub stop_context : Context → Context
stop_context ctx = record ctx { running = false }

unfoldable pub is_running : Context → Bool
is_running ctx = ctx.running

-- How a script ends: with a result, or unwinding, with the actor as the panic left it.
pub data End (t : Types) (R : Type 0) : Type 0 where
  finished : R → Context → End t R
  unwound : t.Any → String → End t R

module _ (c : Code) where
  open c use {types, Any, Val}

  -- The end of `Context::spawn`: the child that has started goes into the map of its parent's worker.
  unfoldable pub inserted :
      ℕ → c.Kind → Env types → Outcome (ℕ × SpawnShared types) → Env types × Outcome (Addr types)
  inserted child_id kind env (panicked m) = (env, panicked m)
  inserted child_id kind env (returned (tx, shared)) = (
    record env { shared = shared },
    returned (record { actor_id = child_id; tx = tx; kind = kind }),
  )

  unfoldable pub insert_child : ℕ → ℕ → Any → Env types → Env types × Outcome (Addr types)
  unfolding inserted
  insert_child child_id worker_idx child env = inserted child_id (c.type_of child) env (
      spawn_actor_direct child_id worker_idx (record { actor = child; on_stop = c.type_of child })
        env.shared)

  -- A child whose `started` panics is not inserted, and the panic goes on in its parent.
  unfoldable pub start_child : ℕ → ℕ → Env types × End types Any → Env types × Outcome (Addr types)
  unfolding insert_child
  start_child child_id worker_idx (env, unwound _ m) = (env, panicked m)
  start_child child_id worker_idx (env, finished child _) =
      insert_child child_id worker_idx child env

  unfoldable pub after_spawn :
      {R : Type 0}
      → Any
      → (Addr types → Env types → Env types × End types R)
      → Env types × Outcome (Addr types)
      → Env types × End types R
  after_spawn self next (env, panicked m) = (env, unwound self m)
  after_spawn self next (env, returned addr) = next addr env

  -- `Context::spawn`: `start` runs the child's `started`, and `next` is what the caller does with the
  -- address.
  unfoldable pub spawn_child :
      {R : Type 0}
      → Bool
      → Any
      → (Context → Env types → Env types × End types Any)
      → (Addr types → Env types → Env types × End types R)
      → Context
      → Env types
      → Env types × End types R
  unfolding after_spawn start_child with_spawner
  spawn_child false self start next ctx env =
      (env, unwound self "Context::spawn requires a multi-threaded Runtime")
  spawn_child true self start next ctx env =
      let (child_id, shared) = allocate_id env.shared in
      after_spawn self next (
        start_child child_id ctx.worker_idx
          (start (with_spawner child_id ctx.worker_idx) (record env { shared = shared })))

  -- The run of a hook or a handler in its context.
  unfoldable pub exec :
      {R : Type 0} → Script types R → Context → Env types → Env types × End types R
  unfolding stop_context spawn_child
  exec (done r) ctx env = (env, finished r ctx)
  exec (panics self m) ctx env = (env, unwound self m)
  exec (stop k) ctx env = exec k (stop_context ctx) env
  exec (self_id k) ctx env = exec (k ctx.actor_id) ctx env
  exec (Script.do_send addr msg k) ctx env =
      let (env', r) = do_send addr msg env in exec (k r) ctx env'
  exec (spawn self child k) ctx env =
      spawn_child ctx.spawn_shared self (exec child) (λ addr env'. exec (k addr) ctx env') ctx env
  exec (read k) ctx env = exec (k env.world) ctx env
  exec (write w k) ctx env = exec k ctx (record env { world = w })
