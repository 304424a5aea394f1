-- ===== src/Console/Program.antt =====
-- examples/console.rs: the program of the three kinds of actors.
use native.Mathlib.Decide.{ℕ_discrete}
use actinium_actor.Prelude.{ℕ, List}
use actinium_actor.HashMap.{HashMap}
use actinium_actor.Text.{Text}
use actinium_actor.Actor.{Code, Script, panics}
use actinium_actor.Actor.Call.{type_mismatch}
use actinium_actor.Console.{
  ManagedWorker, AnyActor, meta, command, worker, AnyMessage, worker_message, meta_command,
  cmd_response, console_command, Reply, types, type_of,
}
use actinium_actor.Console.Worker.{handle_worker, worker_started, worker_stopped}
use actinium_actor.Console.Meta.{handle_meta, meta_started, meta_stopped}
use actinium_actor.Console.Command.{
  handle_response, handle_console, command_started, command_stopped,
}

abbrev pub started : AnyActor → Script types AnyActor
started (meta m) = meta_started m
started (command a) = command_started a
started (worker sm) = worker_started sm

abbrev pub stopped : AnyActor → Script types AnyActor
stopped (meta m) = meta_stopped m
stopped (command a) = command_stopped a
stopped (worker sm) = worker_stopped sm

module _ (lower : ℕ → Text) (order : HashMap ManagedWorker → List (ℕ × ManagedWorker)) where
  -- The handlers; a message that its actor has no handler for does not get here.
  abbrev pub handle : AnyActor → AnyMessage → Script types (AnyActor × Reply)
  handle (meta m) (meta_command cmd) = handle_meta m cmd
  handle (command a) (cmd_response r) = handle_response a r
  handle (command a) (console_command cmd) = handle_console lower order a cmd
  handle (worker sm) (worker_message msg) = handle_worker sm msg
  handle actor _ = panics actor type_mismatch

  abbrev pub program : Code
  program = record {
    types = types;
    type_of = type_of;
    kind_discrete = ℕ_discrete;
    started = started;
    stopped = stopped;
    handle = handle;
  }
