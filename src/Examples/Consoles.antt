-- ===== src/Examples/Consoles.antt =====
-- examples/console.rs: worker 5 is registered; the meta actor runs on worker thread 0.
use actinium_actor.Prelude.{
  ℕ, ◌≡◌, refl, some, none, List, [], ◌∷◌, ◌++◌, true, if◌then◌else◌, ◌==◌, arith,
}
use actinium_actor.HashMap.{HashMap, get}
use actinium_actor.Outcome.{Returns}
use actinium_actor.Text.{Text, text, show}
use actinium_actor.Actor.Store.{Env, do_send}
use actinium_actor.Actor.Exec.{Context, finished, exec}
use actinium_actor.StateMachine.Cycle.{handle_all}
use actinium_actor.Console.{
  ManagedWorker, MetaActor, CommandActor, exec_input, meta, meta_command, command, ok, unit,
  create_worker, destroy_worker, World, types, Link, address, info_of,
}
use actinium_actor.Console.Worker.{worker_handler}
use actinium_actor.Console.Meta.{handle_meta}
use actinium_actor.Console.Command.{handle_console}
use actinium_actor.Console.Program.{program}
use actinium_actor.Console.Total.{Executed, handle_console-Executed}
use actinium_actor.Console.Typed.{sent_result, exec_input-send, exec_input-stop}
use actinium_actor.Console.Lifecycle.{
  Created, fresh_worker, handle_meta-destroy, handle_meta-Created,
}
use actinium_actor.Console.Recording.{Recorded, handle_all-Recorded}

abbrev lower : ℕ → Text
lower c = c ∷ []

abbrev order : HashMap ManagedWorker → List (ℕ × ManagedWorker)
order m = m

abbrev to_meta : Link
to_meta = record { actor_id = 1; tx = 7; kind = 0 }

abbrev bob : ManagedWorker
bob = record { addr = record { actor_id = 5; tx = 7; kind = 2 }; info = 0; name = text "bob" }

abbrev world : World
world = record {
  infos =
      (
        0,
        record {
          name = text "bob";
          msg_count = 2;
          last_msg = text "hi";
          current_state = text "Receiving";
        },
      )
      ∷ [];
  next_info = 1;
  registry = (5, bob) ∷ [];
  log = [];
  cmd_addr_holder = none;
}

abbrev env : Env types
env = record {
  world = world;
  channels = (7, record { queue = []; clients = true; receiver = true }) ∷ [];
  replies = [];
  next_reply = 0;
  shared = record {
    control_txs = 7 ∷ [];
    msg_txs = 7 ∷ [];
    actor_maps = [] ∷ [];
    next_id = 6;
    next_worker = 0;
    num_workers = 1;
    running = true;
  };
}

abbrev ctx : Context
ctx = record { actor_id = 2; running = true; spawn_shared = true; worker_idx = 0 }

abbrev commander : CommandActor
commander = record { meta = some to_meta; last_response = none }

abbrev manager : MetaActor
manager = record { cmd_addr = some (record { actor_id = 2; tx = 7; kind = 1 }) }

handle_console-Executed_example :
    Executed ctx
      (exec
        (program lower order)
        (handle_console lower order commander (exec_input (text "SEND 99999999999999999999 x")))
        ctx
        env).1
handle_console-Executed_example =
    handle_console-Executed lower order commander (text "SEND 99999999999999999999 x") ctx env

exec_input-send_example :
    exec
      (program lower order)
      (handle_console lower order commander
        (exec_input (text "send " ++ show 5 ++ text " hello there")))
      ctx
      env
    ≡ sent_result 5 (text "hello there") bob commander ctx env
unfolding get
exec_input-send_example =
    exec_input-send lower order 5 (text "hello there") bob commander ctx env (omega arith) refl

exec_input-stop_example :
    exec
      (program lower order)
      (handle_console lower order commander (exec_input (text "stop " ++ show 5)))
      ctx
      env
    ≡ (
      (do_send (address to_meta) (meta_command (destroy_worker 5)) env).0,
      finished (command commander, ok (text "ok")) ctx,
    )
exec_input-stop_example = exec_input-stop lower order 5 to_meta commander ctx env (omega arith) refl

handle_meta-destroy_example :
    ((exec (program lower order) (handle_meta manager (destroy_worker 5)) ctx env).0.shared
      ≡ env.shared)
    × (get
          (exec
            (program lower order)
            (handle_meta manager (destroy_worker 5))
            ctx
            env).0.world.registry
          5
        ≡ (if 5 == 5 then none else get env.world.registry 5))
    × ((exec (program lower order) (handle_meta manager (destroy_worker 5)) ctx env).1
        ≡ finished (meta manager, unit) ctx)
handle_meta-destroy_example = handle_meta-destroy lower order 5 manager ctx env 5

handle_meta-Created_example :
    Created
      (text "eve")
      0
      7
      []
      env
      (exec (program lower order) (handle_meta manager (create_worker (text "eve"))) ctx env).0
handle_meta-Created_example =
    handle_meta-Created lower order (text "eve") manager ctx env [] 7 refl refl refl

handle_all-Recorded_example :
    Returns
      (handle_all worker_handler (text "a" ∷ text "b" ∷ []) (fresh_worker 0) (world, 5))
      (λ x. Recorded 0 (text "a" ∷ text "b" ∷ []) (record { info = 0 }) world x.2.0)
unfolding info_of get
handle_all-Recorded_example =
    handle_all-Recorded (text "a" ∷ text "b" ∷ []) (fresh_worker 0) (world, 5)
      (record { within = omega arith; sequence = refl }) refl (omega arith)
