-- ===== src/Worker/Log.antt =====
-- src/runtime.rs: which messages a worker dispatches, in order, each with whether it stops its actor.
use actinium_actor.Prelude.{ℕ, Bool, true, false, not, Option, none, some, List, [], ◌∷◌, ◌++◌}
use actinium_actor.HashMap.{get, insert, remove}
use actinium_actor.Outcome.{Outcome, returned, panicked}
use actinium_actor.Scheduler.{Scheduler, next_ready, dequeue}
use actinium_actor.Actor.{Types, Code}
use actinium_actor.Actor.Store.{Dispatch, Mail, ActorCell, Env}
use actinium_actor.Actor.Exec.{is_running, with_spawner, End, finished, unwound}
use actinium_actor.Actor.Call.{call_dispatch}
use actinium_actor.Worker.{
  Worker, ControlMsg, spawn_actor, shutdown, Next, goes_on, returns, actor_map, set_actor_map,
  drain, iteration,
}
use actinium_actor.Worker.Run.{Input}

-- A handler that panics or has called `ctx.stop()` ends its actor.
abbrev pub ends : {t : Types} {R : Type 0} → End t R → Bool
ends (finished _ ctx) = not (is_running ctx)
ends (unwound _ _) = true

abbrev pub Log : Types → Type 0
Log t = List (Mail t × Bool)

-- Whether the first message of a log stops its actor.
abbrev pub flag : {t : Types} → Log t → Bool
flag [] = false
flag ((e, x) ∷ l) = x

module _ (c : Code) where
  open c use {types, Any}

  unfoldable pub stops_cell :
      Mail types → Worker types → Option (ActorCell types) → Env types → Bool
  stops_cell e w none env = false
  stops_cell e w (some cell) env =
      ends
        (call_dispatch c e.dispatch cell.actor (with_spawner e.actor_id w.worker_idx)
          (set_actor_map w (remove e.actor_id (actor_map w env)) env)).1

  -- Whether the dispatch of `e` stops its actor.
  unfoldable pub stops : Mail types → Worker types → Env types → Bool
  unfolding stops_cell
  stops e w env = stops_cell e w (get (actor_map w env) e.actor_id) env

  unfoldable pub log_dequeued :
      Worker types → Scheduler (Dispatch types) × Option (Mail types) → Env types → Log types
  unfolding stops
  log_dequeued w (s, none) env = []
  log_dequeued w (s, some e) env = (e, stops e (record w { scheduler = s }) env) ∷ []

  unfoldable pub log_ready :
      Worker types → Scheduler (Dispatch types) × Option ℕ → Env types → Log types
  unfolding log_dequeued
  log_ready w (s, none) env = []
  log_ready w (s, some actor_id) env = log_dequeued w (dequeue actor_id s) env

  -- What `serve` dispatches.
  unfoldable pub log_serve : Worker types → Env types → Log types
  unfolding log_ready
  log_serve w env = let (env', w') = drain w env in log_ready w' (next_ready w'.scheduler) env'

  unfoldable pub log_controls : List (ControlMsg types) → Worker types → Env types → Log types
  unfolding log_serve
  log_controls [] w env = log_serve (record w { control_rx = [] }) env
  log_controls (shutdown ∷ more) w env = []
  log_controls (spawn_actor id cell confirm ∷ more) w env =
      log_controls more (record w { confirmed = w.confirmed ++ confirm ∷ [] })
        (set_actor_map w (insert id cell (actor_map w env)) env)

  unfoldable pub log_after :
      (Worker types → Env types → Log types) → Env types × Outcome (Next types) → Log types
  log_after next (env, panicked m) = []
  log_after next (env, returned (returns w)) = []
  log_after next (env, returned (goes_on w)) = next w env

  -- What the loop of `Worker::run` dispatches.
  unfoldable pub log_run :
      (List ℕ → List ℕ) → List (Input types) → Worker types → Env types → Log types
  unfolding log_controls log_after
  log_run order [] w env = []
  log_run order (x ∷ xs) w env =
      let w' : Worker types = record w { control_rx = w.control_rx ++ x.control } in
      log_controls w'.control_rx w' (x.others env)
      ++ log_after (log_run order xs) (iteration c order x.late w' (x.others env))
