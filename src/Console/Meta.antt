-- ===== src/Console/Meta.antt =====
-- examples/console.rs: `MetaActor`, which creates and destroys workers.
use Prim.Native.String.{String}
use actinium_actor.Prelude.{ℕ, ◌+◌, Option, none, some, [], ◌++◌}
use actinium_actor.HashMap.{get, insert, remove}
use actinium_actor.ActorId.{display}
use actinium_actor.Outcome.{Outcome, returned, panicked}
use actinium_actor.Text.{Text, text}
use actinium_actor.Actor.{Script, done, panics, do_send, spawn, read, write}
use actinium_actor.StateMachine.{new}
use actinium_actor.Console.{
  WorkerInfo, ManagedWorker, MetaActor, CmdResponse, spawned, stopped, error, MetaCommand,
  create_worker, destroy_worker, World, AnyActor, meta, cmd_response, Reply, unit, types, link,
  address, push_log, info_of, Link,
}
use actinium_actor.Console.Worker.{WorkerSm, worker_handler, worker_started}
use actinium_actor.Console.Command.{command_started}

abbrev pub logged : String → MetaActor → Script types AnyActor
logged what actor =
    read λ w. write (push_log (text "[MetaActor] " ++ text what) w) (done (meta actor))

-- `started` spawns the command actor and leaves its address where the main program looks for it.
unfoldable pub meta_started : MetaActor → Script types AnyActor
meta_started actor = read λ w. write (push_log (text "[MetaActor] started") w) (
    spawn (meta actor) (command_started (record { meta = none; last_response = none })) (λ addr.
      read (λ w'.
        write (record w' { cmd_addr_holder = some (link addr) })
          (done (meta (record { cmd_addr = some (link addr) }))))))

abbrev pub meta_stopped : MetaActor → Script types AnyActor
meta_stopped actor = logged "stopped" actor

unfoldable pub notify_cmd : Option Link → CmdResponse → MetaActor → Script types (AnyActor × Reply)
notify_cmd none response actor = done (meta actor, unit)
notify_cmd (some cmd_addr) response actor =
    do_send (address cmd_addr) (cmd_response response) (λ _. done (meta actor, unit))

abbrev pub new_info : Text → WorkerInfo
new_info name = record { name = name; msg_count = 0; last_msg = []; current_state = text "Idle" }

-- A new cell for the info of a worker.
abbrev pub add_info : Text → World → World
add_info name w = record w {
  infos = insert w.next_info (new_info name) w.infos;
  next_info = w.next_info + 1;
}

abbrev pub register : Link → ℕ → Text → World → World
register addr info name w = record w {
  registry = insert addr.actor_id (record { addr = addr; info = info; name = name }) w.registry;
}

unfoldable pub spawn_worker :
    Text → ℕ → MetaActor → Outcome WorkerSm → Script types (AnyActor × Reply)
unfolding notify_cmd
spawn_worker name info actor (panicked m) = panics (meta actor) m
spawn_worker name info actor (returned sm) = spawn (meta actor) (worker_started sm) λ addr.
    read λ w.
      write (register (link addr) info name w)
        (notify_cmd actor.cmd_addr (spawned addr.actor_id name) actor)

unfoldable pub destroy :
    ℕ → World → Option ManagedWorker → MetaActor → Script types (AnyActor × Reply)
unfolding notify_cmd
destroy id w none actor =
    notify_cmd actor.cmd_addr (error (text "Worker " ++ display id ++ text " not found")) actor
destroy id w (some m) actor =
    write (record w { registry = remove id w.registry })
      (notify_cmd actor.cmd_addr
        (stopped id m.name (info_of w m.info).msg_count (info_of w m.info).current_state) actor)

unfoldable pub handle_meta : MetaActor → MetaCommand → Script types (AnyActor × Reply)
unfolding spawn_worker destroy
handle_meta actor (create_worker name) = read λ w.
    write (add_info name w)
      (spawn_worker name w.next_info actor (new worker_handler (record { info = w.next_info })))
handle_meta actor (destroy_worker id) = read λ w. destroy id w (get w.registry id) actor
