-- ===== src/Worker/Serving.antt =====
-- An iteration of a worker without control messages keeps what the worker needs.
use actinium_actor.Prelude.{
  refl, ℕ, ◌≡◌, Bool, true, Option, none, some, List, [], ◌∷◌, ◌<◌, if◌then◌else◌,
}
use actinium_actor.HashMap.{get}
use actinium_actor.Scheduler.{Scheduler}
use actinium_actor.Actor.{Code}
use actinium_actor.Actor.Store.{Dispatch, Mail, Channel, Env}
use actinium_actor.System.{
  Received, message, empty, disconnected, try_recv, try_recv_on, take_first,
}
use actinium_actor.Worker.{
  Worker, ControlMsg, drain, drain_channel, finish_turn, on_dequeued, on_waited, on_ready, serve,
}
use actinium_actor.Worker.Receive.{Calm}
use actinium_actor.Worker.Held.{Held, post_all-Held, insert_channel-Held, receiver-gone}
use actinium_actor.Worker.Sound.{
  Is, worker_of, StaysNext, and_then-Stays, dispatch-Stays, leave-StaysNext,
}

module _ (c : Code) (calm : Calm c) (txs : List ℕ) (n : ℕ) (shut : List ℕ) (m i : ℕ)
    (q : List (ControlMsg c.types)) (fits : i < n) where
  open c use {types, Any}

  on_dequeued-StaysNext :
      (a : ℕ) (w : Worker types) (r : Scheduler (Dispatch types) × Option (Mail types))
      (env : Env types)
      → Is m i q w
      → Held txs n shut env
      → StaysNext txs n shut m i q (on_dequeued c a w r env)
  unfolding on_dequeued finish_turn
  on_dequeued-StaysNext a w (s, none) env is h = (h, is)
  on_dequeued-StaysNext a w (s, some e) env is h =
      and_then-Stays c calm txs n shut m i q fits (λ n. Is m i q (worker_of n)) _ _
        (dispatch-Stays c calm txs n shut m i q fits e (record w { scheduler = s }) env is h)
        (λ w' env' is' h'. (h', is'))

  try_recv-Held :
      (b : Bool) (env : Env types) → Held txs n shut env → Held txs n shut (try_recv m b env).0
  unfolding try_recv try_recv_on take_first
  try_recv-Held b env h = go (get env.channels m) refl
    where
      go :
          (o : Option (Channel types))
          → get env.channels m ≡ o
          → Held txs n shut (try_recv_on m b o env).0
      go none found = h
      go (some ch) found = from ch.queue
        where
          from :
              (l : List (Mail types))
              → Held txs n shut (take_first m ch (if b then true else ch.clients) l env).0
          from [] = h
          from (e ∷ l) =
              insert_channel-Held txs n shut m (record ch { queue = l }) env
                (receiver-gone txs n shut m ch env h found) h

  on_waited-StaysNext :
      (order : List ℕ → List ℕ) (w : Worker types) (r : Env types × Received types)
      → Is m i q w
      → Held txs n shut r.0
      → StaysNext txs n shut m i q (on_waited c order w r)
  unfolding on_waited
  on_waited-StaysNext order w (env, message e) is h = (h, is)
  on_waited-StaysNext order w (env, empty) is h = (h, is)
  on_waited-StaysNext order w (env, disconnected) is h =
      leave-StaysNext c calm txs n shut m i q fits order w env is h

  on_ready-StaysNext :
      (order : List ℕ → List ℕ) (late : List (Mail types)) (w : Worker types)
      (r : Scheduler (Dispatch types) × Option ℕ) (env : Env types)
      → Is m i q w
      → Held txs n shut env
      → StaysNext txs n shut m i q (on_ready c order late w r env)
  unfolding on_ready
  on_ready-StaysNext order late w (s, some a) env is h = on_dequeued-StaysNext a w _ env is h
  on_ready-StaysNext order late w (s, none) env is h =
      on_waited-StaysNext order (record w { scheduler = s }) _ is
        (rw (is.0) (try_recv-Held _ _ (post_all-Held c txs n shut late m env h)))

  drain-Stays :
      (w : Worker types) (env : Env types)
      → Is m i q w
      → Held txs n shut env
      → Held txs n shut (drain w env).0 × Is m i q (drain w env).1
  unfolding drain drain_channel
  drain-Stays w env is h = go (get env.channels w.msg_rx) refl
    where
      go :
          (o : Option (Channel types))
          → get env.channels w.msg_rx ≡ o
          → Held txs n shut (drain_channel w o env).0 × Is m i q (drain_channel w o env).1
      go none found = (h, is)
      go (some ch) found = (
        insert_channel-Held txs n shut w.msg_rx (record ch { queue = [] }) env
            (receiver-gone txs n shut w.msg_rx ch env h found) h,
        is,
      )

  pub serve-StaysNext :
      (order : List ℕ → List ℕ) (late : List (Mail types)) (w : Worker types) (env : Env types)
      → Is m i q w
      → Held txs n shut env
      → StaysNext txs n shut m i q (serve c order late w env)
  unfolding serve
  serve-StaysNext order late w env is h =
      let d = drain-Stays w env is h in on_ready-StaysNext order late (drain w env).1 _ _ d.1 d.0
