-- ===== src/Runtime.antt =====
-- src/runtime.rs, src/spawner.rs: the multi-threaded runtime's own functions.
use Prim.Native.String.{String}
use actinium_actor.Prelude.{
  ℕ, zero, suc, ◌+◌, Bool, true, false, Option, none, some, List, [], ◌∷◌, ◌++◌, get_elem?, set,
  map, if◌then◌else◌,
}
use actinium_actor.HashMap.{HashMap, insert}
use actinium_actor.Outcome.{Outcome, returned, panicked}
use actinium_actor.Scheduler
use actinium_actor.Actor.{Types, Code, Addr}
use actinium_actor.Actor.Store.{ActorCell, Channel, SpawnShared, Env, allocate_id, pick_worker}
use actinium_actor.Actor.Spawner.{out_of_bounds}
use actinium_actor.Actor.Exec.{End, finished, unwound, with_spawner, exec}
use actinium_actor.Worker.{Worker, ControlMsg, spawn_actor}
use actinium_actor.Worker.Run.{has_shutdown}
pub mod Placement
pub mod Threads
pub mod Join
pub mod Dropped
pub mod Sound
pub mod Sent
pub mod Steps
pub mod Admission

abbrev pub default_worker_threads : ℕ
default_worker_threads = 4

-- `handles` holds the workers of the threads, as they stand.
pub record Runtime (t : Types) : Type 0 where
  pub handles : List (Worker t)

-- `n` values in a row.
unfoldable pub range : ℕ → ℕ → List ℕ
range first zero = []
range first (suc n) = first ∷ range (first + 1) n

module _ {t : Types} where
  unfoldable pub empty_maps : ℕ → List (HashMap (ActorCell t))
  empty_maps zero = []
  empty_maps (suc n) = [] ∷ empty_maps n

  unfoldable pub open_channels : ℕ → ℕ → HashMap (Channel t) → HashMap (Channel t)
  open_channels first zero m = m
  open_channels first (suc n) m =
      insert first (record { queue = []; clients = false; receiver = true })
        (open_channels (first + 1) n m)

  unfoldable pub new_worker : ℕ → ℕ → Worker t
  new_worker channel i = record {
    control_rx = [];
    msg_rx = channel;
    scheduler = Scheduler.new;
    worker_idx = i;
    confirmed = [];
  }

  unfoldable pub start_workers : ℕ → ℕ → ℕ → List (Worker t)
  unfolding new_worker
  start_workers first i zero = []
  start_workers first i (suc n) = new_worker first i ∷ start_workers (first + 1) (i + 1) n

  -- The new channels have the names from `first`; a worker's two channels share a name.
  unfoldable pub with_threads : ℕ → ℕ → Env t → Env t × Outcome (Runtime t)
  unfolding range empty_maps open_channels start_workers
  with_threads first zero env = (env, panicked "at least one worker thread is required")
  with_threads first (suc n) env = (
    record env {
      channels = open_channels first (suc n) env.channels;
      shared = record {
        control_txs = range first (suc n);
        msg_txs = range first (suc n);
        actor_maps = empty_maps (suc n);
        next_id = 1;
        next_worker = 0;
        num_workers = suc n;
        running = true;
      };
    },
    returned (record { handles = start_workers first 0 (suc n) }),
  )

  unfoldable pub new : ℕ → Env t → Env t × Outcome (Runtime t)
  unfolding with_threads
  new first env = with_threads first default_worker_threads env

  -- A control message is put into the queue of a worker.
  unfoldable pub control : ControlMsg t → Worker t → Worker t
  control msg w = record w { control_rx = w.control_rx ++ msg ∷ [] }

  -- A spawn is sent to a worker and confirmed. Behind a shutdown it is not: the worker returns without
  -- it, which drops the sender of the confirmation, and the caller panics.
  unfoldable pub send_control :
      ℕ
      → ControlMsg t
      → List (Worker t)
      → Option (Worker t)
      → Option ℕ
      → Outcome (List (Worker t) × ℕ)
  unfolding control has_shutdown
  send_control i msg workers none tx = panicked out_of_bounds
  send_control i msg workers (some w) none = panicked out_of_bounds
  send_control i msg workers (some w) (some tx) =
      if has_shutdown w.control_rx
      then panicked "worker should confirm spawn"
      else returned (set workers i (control msg w), tx)

  -- `SpawnShared::spawn_actor_remote`, whose token of the confirmation is the new identifier. The worker
  -- confirms in its next iteration; the caller is not held back until then, so that the steps of the
  -- threads come in more orders than the code has. The result is a sender of the worker's channel.
  unfoldable pub spawn_actor_remote :
      ℕ → ℕ → ActorCell t → Runtime t → SpawnShared t → Outcome (List (Worker t) × ℕ)
  unfolding send_control
  spawn_actor_remote id worker_idx cell rt s =
      send_control worker_idx (spawn_actor id cell id) rt.handles (get_elem? rt.handles worker_idx)
        (get_elem? s.msg_txs worker_idx)

  -- `Runtime::shutdown`: every worker gets the control message.
  unfoldable pub shutdown : Runtime t → Runtime t
  unfolding control
  shutdown rt = record { handles = map (control ControlMsg.shutdown) rt.handles }

  unfoldable pub num_workers : Env t → ℕ
  num_workers env = env.shared.num_workers

-- What `Runtime::spawn` takes of the shared state: an identifier and a worker.
unfoldable pub place : {t : Types} → SpawnShared t → (ℕ × ℕ) × SpawnShared t
place s =
    let (id, s') = allocate_id s in
    let (worker_idx, s'') = pick_worker s' in ((id, worker_idx), s'')

module _ (c : Code) where
  open c use {types, Any}

  unfoldable pub address :
      ℕ
      → c.Kind
      → Env types
      → Outcome (List (Worker types) × ℕ)
      → Env types × Outcome (Runtime types × Addr types)
  address id kind env (panicked m) = (env, panicked m)
  address id kind env (returned (workers, tx)) =
      (env, returned (record { handles = workers }, record { actor_id = id; tx = tx; kind = kind }))

  unfoldable pub spawn_started :
      ℕ
      → ℕ
      → Runtime types
      → Env types × End types Any
      → Env types × Outcome (Runtime types × Addr types)
  unfolding address spawn_actor_remote
  spawn_started id worker_idx rt (env, unwound _ m) = (env, panicked m)
  spawn_started id worker_idx rt (env, finished actor _) = address id (c.type_of actor) env (
      spawn_actor_remote id worker_idx (record { actor = actor; on_stop = c.type_of actor }) rt
        env.shared)

  -- `Runtime::spawn`.
  unfoldable pub spawn :
      Any → Runtime types → Env types → Env types × Outcome (Runtime types × Addr types)
  unfolding spawn_started place with_spawner
  spawn actor rt env =
      let ((id, worker_idx), shared) = place env.shared in
      spawn_started id worker_idx rt
        (exec c (c.started actor) (with_spawner id worker_idx) (record env { shared = shared }))
