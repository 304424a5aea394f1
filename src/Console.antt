-- ===== src/Console.antt =====
-- examples/console.rs: the supervised workers of the console program. This file has its data; what
-- several actors share behind `Arc<Mutex<…>>` is the world of the scripts.
use native.Mathlib.Decide.{ℕ_discrete}
use actinium_actor.Prelude.{ℕ, ◌+◌, Option, none, some, List, [], ◌∷◌, ◌++◌}
use actinium_actor.HashMap.{HashMap, get, insert}
use actinium_actor.Text.{Text, text}
use actinium_actor.Actor.{Types, Addr}
use actinium_actor.StateMachine.{StateMachine}
pub mod Worker
pub mod Meta
pub mod Command
pub mod Program
pub mod Total
pub mod Typed
pub mod Lifecycle
pub mod Recording

pub data WorkerState : Type 0 where
  idle receiving processing : WorkerState

-- `{:?}`
abbrev pub debug : WorkerState → Text
debug idle = text "Idle"
debug receiving = text "Receiving"
debug processing = text "Processing"

pub record WorkerInfo : Type 0 where
  pub name : Text
  pub msg_count : ℕ
  pub last_msg : Text
  pub current_state : Text

-- `info` names the shared cell of the worker's `WorkerInfo`.
pub record WorkerActor : Type 0 where
  pub info : ℕ

-- An address, before the types of the program are there.
pub record Link : Type 0 where
  pub actor_id : ℕ
  pub tx : ℕ
  pub kind : ℕ

pub record ManagedWorker : Type 0 where
  pub addr : Link
  pub info : ℕ
  pub name : Text

pub record MetaActor : Type 0 where
  pub cmd_addr : Option Link

-- `last_response` is shared in the source, but nobody else has a handle of it.
pub record CommandActor : Type 0 where
  pub meta : Option Link
  pub last_response : Option Text

pub data CmdResponse : Type 0 where
  spawned : ℕ → Text → CmdResponse
  stopped : ℕ → Text → ℕ → Text → CmdResponse
  error : Text → CmdResponse

pub data MetaCommand : Type 0 where
  create_worker : Text → MetaCommand
  destroy_worker : ℕ → MetaCommand

pub data ConsoleCommand : Type 0 where
  exec_input : Text → ConsoleCommand
  poll : ConsoleCommand
  set_meta : Link → ConsoleCommand
  quit : ConsoleCommand

-- The shared cells: the infos of the workers, the registry, the log, and the holder of the address of
-- the command actor.
pub record World : Type 0 where
  pub infos : HashMap WorkerInfo
  pub next_info : ℕ
  pub registry : HashMap ManagedWorker
  pub log : List Text
  pub cmd_addr_holder : Option Link

pub data AnyActor : Type 0 where
  meta : MetaActor → AnyActor
  command : CommandActor → AnyActor
  worker : StateMachine WorkerActor WorkerState → AnyActor

pub data AnyMessage : Type 0 where
  worker_message : Text → AnyMessage
  meta_command : MetaCommand → AnyMessage
  cmd_response : CmdResponse → AnyMessage
  console_command : ConsoleCommand → AnyMessage

-- `ConsoleResult`, and `()` for the other messages.
pub data Reply : Type 0 where
  unit : Reply
  ok : Text → Reply
  quitting : Reply

abbrev pub types : Types
types = record { World = World; Any = AnyActor; Kind = ℕ; Msg = AnyMessage; Val = Reply }

-- 0 for `MetaActor`, 1 for `CommandActor`, 2 for the machine of a `WorkerActor`.
abbrev pub type_of : AnyActor → ℕ
type_of (meta m) = 0
type_of (command a) = 1
type_of (worker sm) = 2

abbrev pub link : Addr types → Link
link a = record { actor_id = a.actor_id; tx = a.tx; kind = a.kind }

abbrev pub address : Link → Addr types
address l = record { actor_id = l.actor_id; tx = l.tx; kind = l.kind }

-- `push` on the log.
abbrev pub push_log : Text → World → World
push_log entry w = record w { log = w.log ++ entry ∷ [] }

abbrev pub no_info : WorkerInfo
no_info = record { name = []; msg_count = 0; last_msg = []; current_state = [] }

-- The contents of a cell. A handle's cell exists, so that the default is not used.
unfoldable pub info_of : World → ℕ → WorkerInfo
info_of w k = elim (get w.infos k) [ none ↦ no_info | some info ↦ info ]
