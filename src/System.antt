-- ===== src/System.antt =====
-- src/system.rs: the single-threaded runtime.
use Prim.Native.String.{String}
use actinium_actor.Prelude.{
  ℕ, zero, suc, ◌+◌, ◌%◌, ◌^◌, Bool, true, false, Option, none, some, List, [], ◌∷◌, length,
  if◌then◌else◌,
}
use actinium_actor.HashMap.{HashMap, get, insert, remove, keys}
use actinium_actor.Envelope.{Envelope}
use actinium_actor.Outcome.{Outcome, returned, panicked}
use actinium_actor.Actor.{Types, Code, Addr}
use actinium_actor.Actor.Store.{Dispatch, Mail, Channel, ActorCell, Env, drop_envelope}
use actinium_actor.Actor.Exec.{Context, new, is_running, End, finished, unwound, exec}
use actinium_actor.Actor.Call.{call_dispatch, call_on_stop}
pub mod Dispatching
pub mod Loop
pub mod Typing
pub mod Answers
pub mod Identity
pub mod Shell
pub mod Drain
pub mod Return
pub mod Progress

-- `rx` and `tx` name the system's channel.
pub record ActorSystem (t : Types) : Type 0 where
  pub actors : HashMap (ActorCell t)
  pub rx : ℕ
  pub tx : Option ℕ
  pub next_id : ℕ
  pub running : Bool

-- What `recv` and `try_recv` find.
pub data Received (t : Types) : Type 0 where
  message : Mail t → Received t
  empty : Received t
  disconnected : Received t

module _ {t : Types} where
  -- `ActorSystem::new`, on a channel that is new too.
  unfoldable pub new_system : ℕ → ActorSystem t
  new_system channel = record {
    actors = [];
    rx = channel;
    tx = some channel;
    next_id = 1;
    running = false;
  }

  unfoldable pub shutdown : ActorSystem t → ActorSystem t
  shutdown sys = record sys { running = false }

  unfoldable pub actor_count : ActorSystem t → ℕ
  actor_count sys = length sys.actors

  unfoldable pub take_first : ℕ → Channel t → Bool → List (Mail t) → Env t → Env t × Received t
  take_first k ch connected [] env = (env, if connected then empty else disconnected)
  take_first k ch connected (e ∷ q) env =
      (record env { channels = insert k (record ch { queue = q }) env.channels }, message e)

  unfoldable pub try_recv_on : ℕ → Bool → Option (Channel t) → Env t → Env t × Received t
  unfolding take_first
  try_recv_on k held none env = (env, disconnected)
  try_recv_on k held (some ch) env =
      take_first k ch (if held then true else ch.clients) ch.queue env

  -- `try_recv`: what was sent comes before the disconnection. `held` says whether the runtime itself
  -- holds a sender.
  unfoldable pub try_recv : ℕ → Bool → Env t → Env t × Received t
  unfolding try_recv_on
  try_recv k held env = try_recv_on k held (get env.channels k) env

module _ (c : Code) where
  open c use {types, Any}

  unfoldable pub insert_started :
      ℕ
      → ℕ
      → ActorSystem types
      → Env types × End types Any
      → Env types × Outcome (ActorSystem types × Addr types)
  insert_started id tx sys (env, unwound _ m) = (env, panicked m)
  insert_started id tx sys (env, finished actor _) = (
    env,
    returned (
      record sys {
        actors = insert id (record { actor = actor; on_stop = c.type_of actor }) sys.actors;
        next_id = (id + 1) % 2 ^ 64;
      },
      record { actor_id = id; tx = tx; kind = c.type_of actor },
    ),
  )

  unfoldable pub spawn_on :
      Option ℕ
      → Any
      → ActorSystem types
      → Env types
      → Env types × Outcome (ActorSystem types × Addr types)
  unfolding insert_started
  spawn_on none actor sys env = (env, panicked "spawn called after run")
  spawn_on (some tx) actor sys env =
      insert_started sys.next_id tx sys (exec c (c.started actor) (new sys.next_id) env)

  -- `ActorSystem::spawn`, which panics once `run` has dropped the sender. The identifiers are `u64`.
  unfoldable pub spawn :
      Any → ActorSystem types → Env types → Env types × Outcome (ActorSystem types × Addr types)
  unfolding spawn_on
  spawn actor sys env = spawn_on sys.tx actor sys env

  unfoldable pub after_stop :
      ℕ → ActorSystem types → Env types × End types Any → Env types × Outcome (ActorSystem types)
  after_stop actor_id sys (env, finished _ _) =
      (env, returned (record sys { actors = remove actor_id sys.actors }))
  after_stop actor_id sys (env, unwound _ m) = (env, panicked m)

  -- The cell has left the map; its `stopped` is called with a new context.
  unfoldable pub stop_cell :
      ℕ
      → ActorSystem types
      → Option (ActorCell types)
      → Env types
      → Env types × Outcome (ActorSystem types)
  unfolding after_stop
  stop_cell actor_id sys none env = (env, returned sys)
  stop_cell actor_id sys (some cell) env =
      after_stop actor_id sys (call_on_stop c cell (new actor_id) env)

  unfoldable pub remove_actor :
      ℕ → ActorSystem types → Env types → Env types × Outcome (ActorSystem types)
  unfolding stop_cell
  remove_actor actor_id sys env = stop_cell actor_id sys (get sys.actors actor_id) env

  -- The end of `dispatch`: the actor as its handler left it; a panic goes on in the caller.
  unfoldable pub after_handle :
      ℕ
      → ActorCell types
      → ActorSystem types
      → Env types × End types Any
      → Env types × Outcome (ActorSystem types)
  unfolding remove_actor is_running
  after_handle actor_id cell sys (env, unwound _ m) = (env, panicked m)
  after_handle actor_id cell sys (env, finished actor ctx) =
      let sys' : ActorSystem types = record sys {
        actors = insert actor_id (record cell { actor = actor }) sys.actors;
      } in
      if is_running ctx then (env, returned sys') else remove_actor actor_id sys' env

  unfoldable pub dispatch_to :
      Mail types
      → ActorSystem types
      → Option (ActorCell types)
      → Env types
      → Env types × Outcome (ActorSystem types)
  unfolding after_handle
  dispatch_to e sys none env = (drop_envelope e env, returned sys)
  dispatch_to e sys (some cell) env =
      after_handle e.actor_id cell sys (call_dispatch c e.dispatch cell.actor (new e.actor_id) env)

  unfoldable pub dispatch :
      Mail types → ActorSystem types → Env types → Env types × Outcome (ActorSystem types)
  unfolding dispatch_to
  dispatch e sys env = dispatch_to e sys (get sys.actors e.actor_id) env

  -- Goes on with the system that a step returns.
  abbrev pub and_then :
      Env types × Outcome (ActorSystem types)
      → (ActorSystem types → Env types → Env types × Outcome (ActorSystem types))
      → Env types × Outcome (ActorSystem types)
  and_then (env, panicked m) next = (env, panicked m)
  and_then (env, returned sys) next = next sys env

  -- `stop_all_actors` over the identifiers that are left.
  unfoldable pub stop_ids :
      List ℕ → ActorSystem types → Env types → Env types × Outcome (ActorSystem types)
  stop_ids [] sys env = (env, returned sys)
  stop_ids (id ∷ ids) sys env = and_then (remove_actor id sys env) (stop_ids ids)

  -- `order` is the order in which the map happens to give its keys.
  unfoldable pub stop_all_actors :
      (List ℕ → List ℕ) → ActorSystem types → Env types → Env types × Outcome (ActorSystem types)
  unfolding stop_ids
  stop_all_actors order sys env = stop_ids (order (keys sys.actors)) sys env
