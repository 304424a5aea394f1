-- ===== src/Worker.antt =====
-- src/runtime.rs: a worker thread of the multi-threaded runtime.
-- The worker's `actor_map` is the same map as `shared.actor_maps[worker_idx]`, and is found there.
use Prim.Native.String.{String}
use actinium_actor.Prelude.{
  ℕ, zero, suc, Bool, true, false, Option, none, some, List, [], ◌∷◌, ◌++◌, contains, get_elem?,
  set, if◌then◌else◌,
}
use actinium_actor.HashMap.{HashMap, get, insert, remove, keys}
use actinium_actor.Envelope.{Envelope}
use actinium_actor.Outcome.{Outcome, returned, panicked}
use actinium_actor.Scheduler.{
  Scheduler, enqueue, next_ready, dequeue, requeue_if_ready, remove_actor, pending,
}
use actinium_actor.Actor.{Types, Code}
use actinium_actor.Actor.Store.{
  Dispatch, Mail, Channel, ActorCell, SpawnShared, Env, drop_envelope, channel_send,
}
use actinium_actor.Actor.Exec.{Context, with_spawner, is_running, End, finished, unwound}
use actinium_actor.Actor.Call.{call_dispatch, call_on_stop}
use actinium_actor.Actor.Spawner
use actinium_actor.System.{Received, message, empty, disconnected, try_recv}
pub mod Receive
pub mod Turn
pub mod Held
pub mod Sound
pub mod Serving
pub mod Run
pub mod Forever
pub mod Dropped
pub mod Closed
pub mod Log
pub mod Backlog
pub mod Order
pub mod Logged
pub mod Fifo
pub mod Answers
pub mod Survives
pub mod Settled
pub mod Oldest
pub mod Fair
pub mod Admission

-- `confirm` is a token of the thread that waits for the confirmation.
pub data ControlMsg (t : Types) : Type 0 where
  spawn_actor : ℕ → ActorCell t → ℕ → ControlMsg t
  shutdown : ControlMsg t

-- `control_rx` holds what was sent and not received, `msg_rx` names the channel, and `confirmed` lists
-- the tokens of the confirmations that were sent.
pub record Worker (t : Types) : Type 0 where
  pub control_rx : List (ControlMsg t)
  pub msg_rx : ℕ
  pub scheduler : Scheduler (Dispatch t)
  pub worker_idx : ℕ
  pub confirmed : List ℕ

-- How a step of the worker ends: the thread panics, or it has a worker, which goes on or returns.
pub data Next (t : Types) : Type 0 where
  goes_on : Worker t → Next t
  returns : Worker t → Next t

module _ {t : Types} where
  unfoldable pub map_or_empty : Option (HashMap (ActorCell t)) → HashMap (ActorCell t)
  map_or_empty none = []
  map_or_empty (some m) = m

  unfoldable pub actor_map : Worker t → Env t → HashMap (ActorCell t)
  unfolding map_or_empty
  actor_map w env = map_or_empty (get_elem? env.shared.actor_maps w.worker_idx)

  unfoldable pub set_actor_map : Worker t → HashMap (ActorCell t) → Env t → Env t
  set_actor_map w m env = record env {
    shared = record env.shared { actor_maps = set env.shared.actor_maps w.worker_idx m };
  }

  -- A mailbox that is dropped drops its envelopes.
  unfoldable pub drop_all : List (Mail t) → Env t → Env t
  drop_all [] env = env
  drop_all (e ∷ q) env = drop_all q (drop_envelope e env)

  -- `scheduler.remove_actor(actor_id)`
  unfoldable pub forget : ℕ → Worker t → Env t → Env t × Outcome (Worker t)
  unfolding drop_all
  forget actor_id w env = (
    drop_all (pending w.scheduler actor_id) env,
    returned (record w { scheduler = remove_actor actor_id w.scheduler }),
  )

  -- After `on_stop`, which `catch_unwind` does not cover.
  unfoldable pub after_stop : ℕ → Worker t → Env t × End t t.Any → Env t × Outcome (Worker t)
  unfolding forget
  after_stop actor_id w (env, unwound _ m) = (env, panicked m)
  after_stop actor_id w (env, finished _ _) = forget actor_id w env

  unfoldable pub enqueue_all : List (Mail t) → Scheduler (Dispatch t) → Scheduler (Dispatch t)
  enqueue_all [] s = s
  enqueue_all (e ∷ q) s = enqueue_all q (enqueue e s)

  unfoldable pub drain_channel : Worker t → Option (Channel t) → Env t → Env t × Worker t
  unfolding enqueue_all
  drain_channel w none env = (env, w)
  drain_channel w (some ch) env = (
    record env { channels = insert w.msg_rx (record ch { queue = [] }) env.channels },
    record w { scheduler = enqueue_all ch.queue w.scheduler },
  )

  -- `while let Ok(envelope) = self.msg_rx.try_recv()`: what other threads send during the loop counts
  -- as sent before it or after it.
  unfoldable pub drain : Worker t → Env t → Env t × Worker t
  unfolding drain_channel
  drain w env = drain_channel w (get env.channels w.msg_rx) env

  unfoldable pub post_all : ℕ → List (Mail t) → Env t → Env t
  post_all k [] env = env
  post_all k (e ∷ q) env = post_all k q (channel_send k e env).0

module _ (c : Code) where
  open c use {types, Any}

  -- `Worker::dispatch` after `catch_unwind`.
  unfoldable pub after_handle :
      ℕ
      → ActorCell types
      → Worker types
      → Env types × End types Any
      → Env types × Outcome (Worker types)
  unfolding after_stop set_actor_map actor_map is_running with_spawner
  after_handle actor_id cell w (env, finished actor ctx) =
      let cell' : ActorCell types = record cell { actor = actor } in
      if is_running ctx
      then (set_actor_map w (insert actor_id cell' (actor_map w env)) env, returned w)
      else after_stop actor_id w (call_on_stop c cell' (with_spawner actor_id w.worker_idx) env)
  after_handle actor_id cell w (env, unwound actor _) =
      after_stop actor_id w
        (call_on_stop c (record cell { actor = actor }) (with_spawner actor_id w.worker_idx) env)

  unfoldable pub dispatch_to :
      Mail types
      → Worker types
      → Option (ActorCell types)
      → Env types
      → Env types × Outcome (Worker types)
  unfolding after_handle
  dispatch_to e w none env = (drop_envelope e env, returned w)
  dispatch_to e w (some cell) env =
      let env' = set_actor_map w (remove e.actor_id (actor_map w env)) env in
      after_handle e.actor_id cell w
        (call_dispatch c e.dispatch cell.actor (with_spawner e.actor_id w.worker_idx) env')

  unfoldable pub dispatch :
      Mail types → Worker types → Env types → Env types × Outcome (Worker types)
  unfolding dispatch_to
  dispatch e w env = dispatch_to e w (get (actor_map w env) e.actor_id) env

  unfoldable pub stop_taken :
      ℕ
      → Worker types
      → Env types
      → Outcome (Option (ActorCell types) × SpawnShared types)
      → Env types × Outcome (Worker types)
  unfolding after_stop
  stop_taken actor_id w env (panicked m) = (env, panicked m)
  stop_taken actor_id w env (returned (none, shared)) =
      forget actor_id w (record env { shared = shared })
  stop_taken actor_id w env (returned (some cell, shared)) =
      after_stop actor_id w
        (call_on_stop c cell (with_spawner actor_id w.worker_idx) (record env { shared = shared }))

  -- `Worker::remove_actor`
  unfoldable pub stop_actor : ℕ → Worker types → Env types → Env types × Outcome (Worker types)
  unfolding stop_taken
  stop_actor actor_id w env =
      stop_taken actor_id w env (Spawner.remove_actor actor_id w.worker_idx env.shared)

  abbrev pub and_then :
      {X : Type 0}
      → Env types × Outcome (Worker types)
      → (Worker types → Env types → Env types × Outcome X)
      → Env types × Outcome X
  and_then (env, panicked m) next = (env, panicked m)
  and_then (env, returned w) next = next w env

  unfoldable pub stop_ids : List ℕ → Worker types → Env types → Env types × Outcome (Worker types)
  stop_ids [] w env = (env, returned w)
  stop_ids (id ∷ ids) w env = and_then (stop_actor id w env) (stop_ids ids)

  -- `order` is the order in which the map happens to give its keys.
  unfoldable pub stop_all_actors :
      (List ℕ → List ℕ) → Worker types → Env types → Env types × Outcome (Worker types)
  unfolding stop_ids
  stop_all_actors order w env = stop_ids (order (keys (actor_map w env))) w env

  unfoldable pub leave :
      (List ℕ → List ℕ) → Worker types → Env types → Env types × Outcome (Next types)
  unfolding stop_all_actors
  leave order w env =
      and_then (stop_all_actors order w env) (λ w' env'. (env', returned (returns w')))

  -- The rest of an iteration goes on with `next` once no control message is left.
  unfoldable pub controls :
      (List ℕ → List ℕ)
      → (Worker types → Env types → Env types × Outcome (Next types))
      → List (ControlMsg types)
      → Worker types
      → Env types
      → Env types × Outcome (Next types)
  unfolding leave
  controls order next [] w env = next (record w { control_rx = [] }) env
  controls order next (shutdown ∷ more) w env = leave order (record w { control_rx = more }) env
  controls order next (spawn_actor id cell confirm ∷ more) w env =
      controls order next more (record w { confirmed = w.confirmed ++ confirm ∷ [] })
        (set_actor_map w (insert id cell (actor_map w env)) env)

  unfoldable pub finish_turn : ℕ → Worker types → Env types → Env types × Outcome (Next types)
  finish_turn actor_id w env =
      (env, returned (goes_on (record w { scheduler = requeue_if_ready actor_id w.scheduler })))

  unfoldable pub on_dequeued :
      ℕ
      → Worker types
      → Scheduler (Dispatch types) × Option (Mail types)
      → Env types
      → Env types × Outcome (Next types)
  unfolding dispatch finish_turn
  on_dequeued actor_id w (s, none) env = (env, returned (goes_on (record w { scheduler = s })))
  on_dequeued actor_id w (s, some e) env =
      and_then (dispatch e (record w { scheduler = s }) env) (finish_turn actor_id)

  unfoldable pub on_waited :
      (List ℕ → List ℕ)
      → Worker types
      → Env types × Received types
      → Env types × Outcome (Next types)
  unfolding leave
  on_waited order w (env, message e) =
      (env, returned (goes_on (record w { scheduler = enqueue e w.scheduler })))
  on_waited order w (env, empty) = (env, returned (goes_on w))
  on_waited order w (env, disconnected) = leave order w env

  -- `late` is what other threads send while `recv_timeout` waits. The worker's handle of `shared` holds
  -- a sender of its channel.
  unfoldable pub on_ready :
      (List ℕ → List ℕ)
      → List (Mail types)
      → Worker types
      → Scheduler (Dispatch types) × Option ℕ
      → Env types
      → Env types × Outcome (Next types)
  unfolding on_dequeued on_waited
  on_ready order late w (s, some actor_id) env = on_dequeued actor_id w (dequeue actor_id s) env
  on_ready order late w (s, none) env =
      on_waited order (record w { scheduler = s })
        (try_recv w.msg_rx (contains env.shared.msg_txs w.msg_rx) (post_all w.msg_rx late env))

  unfoldable pub serve :
      (List ℕ → List ℕ)
      → List (Mail types)
      → Worker types
      → Env types
      → Env types × Outcome (Next types)
  unfolding drain on_ready
  serve order late w env =
      let (env', w') = drain w env in on_ready order late w' (next_ready w'.scheduler) env'

  -- An iteration of the outer loop of `Worker::run`.
  unfoldable pub iteration :
      (List ℕ → List ℕ)
      → List (Mail types)
      → Worker types
      → Env types
      → Env types × Outcome (Next types)
  unfolding controls serve
  iteration order late w env = controls order (serve order late) w.control_rx w env
