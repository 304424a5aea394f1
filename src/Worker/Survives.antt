-- ===== src/Worker/Survives.antt =====
-- src/runtime.rs: an iteration of a worker keeps what its dispatches, its stops and its receives keep.
use actinium_actor.Prelude.{
  ℕ, ◌≡◌, ◌∙◌, Bool, true, Option, none, some, List, [], ◌∷◌, ◌++◌, contains, if◌then◌else◌,
}
use actinium_actor.HashMap.{HashMap, get, insert}
use actinium_actor.Outcome.{Outcome, returned, panicked}
use actinium_actor.Scheduler.{Scheduler, dequeue, next_ready}
use actinium_actor.Actor.{Code}
use actinium_actor.Actor.Store.{Dispatch, Mail, ActorCell, Channel, Env}
use actinium_actor.System.{
  Received, message, empty, disconnected, try_recv, try_recv_on, take_first,
}
use actinium_actor.Worker.{
  Worker, ControlMsg, spawn_actor, shutdown, actor_map, set_actor_map, drain, drain_channel,
  post_all, stop_actor, stop_ids, stop_all_actors, and_then, leave, dispatch, finish_turn,
  on_dequeued, on_waited, on_ready, serve, controls, iteration,
}
use actinium_actor.Worker.Receive.{drain-msg_rx}

-- What the steps of a worker on channel `m` keep.
pub record Survives (c : Code) (m : ℕ) (Inv : Env c.types → Type 0) : Type 0 where
  pub dispatches :
      (e : Mail c.types) (w : Worker c.types) (env : Env c.types)
      → Inv env
      → Inv (dispatch c e w env).0
  pub stops :
      (a : ℕ) (w : Worker c.types) (env : Env c.types) → Inv env → Inv (stop_actor c a w env).0
  pub maps :
      (w : Worker c.types) (actors : HashMap (ActorCell c.types)) (env : Env c.types)
      → Inv env
      → Inv (set_actor_map w actors env)
  pub posts : (l : List (Mail c.types)) (env : Env c.types) → Inv env → Inv (post_all m l env)
  pub takes :
      (ch : Channel c.types) (env : Env c.types)
      → Inv env
      → Inv (record env { channels = insert m ch env.channels })

module _ (c : Code) (m : ℕ) (Inv : Env c.types → Type 0) (s : Survives c m Inv)
    (order : List ℕ → List ℕ) where
  open c use {types, Any}

  and_then-Inv :
      {X : Type 0} (r : Env types × Outcome (Worker types))
      (next : Worker types → Env types → Env types × Outcome X)
      → ((w : Worker types) (env : Env types) → Inv env → Inv (next w env).0)
      → Inv r.0
      → Inv (and_then c r next).0
  and_then-Inv {X = X} (env, panicked e) next hn h = h
  and_then-Inv {X = X} (env, returned w) next hn h = hn w env h

  stop_ids-Inv :
      (ids : List ℕ) (w : Worker types) (env : Env types) → Inv env → Inv (stop_ids c ids w env).0
  unfolding stop_ids
  stop_ids-Inv [] w env h = h
  stop_ids-Inv (a ∷ ids) w env h =
      and_then-Inv (stop_actor c a w env) (stop_ids c ids) (stop_ids-Inv ids) (s.stops a w env h)

  leave-Inv : (w : Worker types) (env : Env types) → Inv env → Inv (leave c order w env).0
  unfolding leave stop_all_actors
  leave-Inv w env h =
      and_then-Inv (stop_ids c _ w env) _ (λ w' env' h'. h') (stop_ids-Inv _ w env h)

  on_dequeued-Inv :
      (b : ℕ) (w : Worker types) (r : Scheduler (Dispatch types) × Option (Mail types))
      (env : Env types)
      → Inv env
      → Inv (on_dequeued c b w r env).0
  unfolding on_dequeued finish_turn
  on_dequeued-Inv b w (sch, none) env h = h
  on_dequeued-Inv b w (sch, some e) env h =
      and_then-Inv (dispatch c e (record w { scheduler = sch }) env) (finish_turn c b)
        (λ w' env' h'. h') (s.dispatches e (record w { scheduler = sch }) env h)

  try_recv-Inv : (held : Bool) (env : Env types) → Inv env → Inv (try_recv m held env).0
  unfolding try_recv try_recv_on take_first
  try_recv-Inv held env h = go (get env.channels m)
    where
      taken :
          (ch : Channel types) (on : Bool) (q : List (Mail types))
          → Inv (take_first m ch on q env).0
      taken ch on [] = h
      taken ch on (e ∷ q) = s.takes (record ch { queue = q }) env h

      go : (o : Option (Channel types)) → Inv (try_recv_on m held o env).0
      go none = h
      go (some ch) = taken ch (if held then true else ch.clients) ch.queue

  on_waited-Inv :
      (w : Worker types) (r : Env types × Received types) → Inv r.0 → Inv (on_waited c order w r).0
  unfolding on_waited
  on_waited-Inv w (env, message e) h = h
  on_waited-Inv w (env, empty) h = h
  on_waited-Inv w (env, disconnected) h = leave-Inv w env h

  on_ready-Inv :
      (late : List (Mail types)) (w : Worker types) (r : Scheduler (Dispatch types) × Option ℕ)
      (env : Env types)
      → w.msg_rx ≡ m
      → Inv env
      → Inv (on_ready c order late w r env).0
  unfolding on_ready
  on_ready-Inv late w (sch, some a) env its h = on_dequeued-Inv a w (dequeue a sch) env h
  on_ready-Inv late w (sch, none) env its h =
      on_waited-Inv (record w { scheduler = sch })
        (try_recv w.msg_rx (contains env.shared.msg_txs w.msg_rx) (post_all w.msg_rx late env))
        (rw its (try_recv-Inv _ _ (s.posts late env h)))

  drain-Inv : (w : Worker types) (env : Env types) → w.msg_rx ≡ m → Inv env → Inv (drain w env).0
  unfolding drain
  drain-Inv w env its h = go (get env.channels w.msg_rx)
    where
      go : (o : Option (Channel types)) → Inv (drain_channel w o env).0
      go none = unfold drain_channel in h
      go (some ch) = unfold drain_channel in rw its (s.takes (record ch { queue = [] }) env h)

  controls-Inv :
      (late : List (Mail types)) (q : List (ControlMsg types)) (w : Worker types) (env : Env types)
      → w.msg_rx ≡ m
      → Inv env
      → Inv (controls c order (serve c order late) q w env).0
  unfolding controls serve
  controls-Inv late [] w env its h =
      let w' : Worker types = record w { control_rx = [] } in
      let r = drain w' env in
      on_ready-Inv late r.1 (next_ready r.1.scheduler) r.0 (drain-msg_rx w' env ∙ its)
        (drain-Inv w' env its h)
  controls-Inv late (shutdown ∷ q) w env its h = leave-Inv (record w { control_rx = q }) env h
  controls-Inv late (spawn_actor id cell confirm ∷ q) w env its h =
      controls-Inv late q (record w { confirmed = w.confirmed ++ confirm ∷ [] }) _ its
        (s.maps w (insert id cell (actor_map w env)) env h)

  pub iteration-Inv :
      (late : List (Mail types)) (w : Worker types) (env : Env types)
      → w.msg_rx ≡ m
      → Inv env
      → Inv (iteration c order late w env).0
  unfolding iteration
  iteration-Inv late w env its h = controls-Inv late w.control_rx w env its h
