-- ===== src/Examples/Workers.antt =====
-- src/runtime.rs: worker 0 with the counters 1 and 2, of which 2 panics at the message that waits.
use actinium_actor.Prelude.{some, get_elem?, arith, [], ◌∷◌, ◌≡◌}
use actinium_actor.Scheduler.{new}
use actinium_actor.Actor.Store.{Env}
use actinium_actor.Actor.Exec.{exec}
use actinium_actor.Actor.Call.{call_on_stop, stop_as}
use actinium_actor.Worker.{Worker}
use actinium_actor.Worker.Receive.{Calm, Finishes}
use actinium_actor.Runtime.{with_threads}
use actinium_actor.Runtime.Placement.{places, get_elem?-places}
use actinium_actor.Examples.Systems.{types, counters, env, cell}

abbrev pub shared_env : Env types
shared_env = record env {
  shared = record env.shared {
    control_txs = 0 ∷ [];
    msg_txs = 7 ∷ [];
    actor_maps = ((1, cell 10) ∷ (2, cell 20) ∷ []) ∷ [];
    num_workers = 1;
  };
}

abbrev pub worker : Worker types
worker = record { control_rx = []; msg_rx = 7; scheduler = new; worker_idx = 0; confirmed = [] }

pub counters-Calm : Calm counters
unfolding call_on_stop stop_as exec
counters-Calm c ctx e = go (counters.kind_discrete 0 c.on_stop)
  where
    go : (d : Dec (0 ≡ c.on_stop)) → Finishes (stop_as counters c ctx e d).1
    go (yes _) = tt
    go (no _) = tt

-- The sixth of ten spawns on four workers.
get_elem?-places_example : get_elem? (places 10 (with_threads 10 4 env).0.shared) 5 ≡ some (6, 1)
unfolding with_threads
get_elem?-places_example =
    get_elem?-places 10 5 (with_threads 10 4 env).0.shared (omega arith) (omega arith) (omega arith)
