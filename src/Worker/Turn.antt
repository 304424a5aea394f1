-- ===== src/Worker/Turn.antt =====
-- An iteration of a worker without control messages follows the scheduler's histories.
use actinium_actor.Prelude.{
  ℕ, ◌≡◌, refl, sym, ap, ◌∙◌, Bool, true, false, Option, none, some, List, [], ◌∷◌, ◌++◌,
  Bool-cases, inl, inr,
}
use actinium_actor.HashMap.{get}
use actinium_actor.Outcome.{Outcome, returned, panicked}
use actinium_actor.Scheduler.{
  Scheduler, next_ready, dequeue, requeue_if_ready, turn, after_ready, after_dequeue,
}
use actinium_actor.Scheduler.History.{turns, run, step}
use actinium_actor.Actor.{Types, Code}
use actinium_actor.Actor.Store.{Dispatch, Mail, ActorCell, Env}
use actinium_actor.Actor.Exec.{is_running, End, finished, unwound}
use actinium_actor.System.{Received, message, empty, disconnected}
use actinium_actor.Worker.{
  Worker, actor_map, Next, goes_on, returns, forget, after_stop, drain, post_all, after_handle,
  dispatch, dispatch_to, and_then, finish_turn, on_dequeued, on_waited, on_ready, serve,
}
use actinium_actor.Worker.Log.{ends, stops, stops_cell}
use actinium_actor.Worker.Receive.{
  Attached, Finishes, Calm, come, queued, run-come, post_all-Attached, drain-Attached, drain-msg_rx,
  drain-scheduler, Left, Open, try_recv-Open,
}

-- The worker goes on, with the scheduler that `s` gives for some choice of whether the served message
-- stops its actor, and after the arrival of some later messages.
abbrev pub Follows :
    {t : Types} → ((Mail t → Bool) → Scheduler (Dispatch t)) → Outcome (Next t) → Type 0
Follows s (panicked m) = ⊥
Follows s (returned (returns w)) = ⊥
Follows s (returned (goes_on w)) =
    (b : Bool) × (late : List (Mail _)) × (w.scheduler ≡ (run (λ e. b) (come late) (s (λ e. b))).0)

module _ (c : Code) (calm : Calm c) where
  open c use {types, Any}

  after_stop-Left :
      (a : ℕ) (w : Worker types) (r : Env types × End types Any)
      → Finishes r.1
      → Left a w true (after_stop a w r).1
  unfolding after_stop forget
  after_stop-Left a w (env, finished _ _) h = (refl, refl)
  after_stop-Left a w (env, unwound _ m) h = absurd h

  after_handle-Left :
      (a : ℕ) (cell : ActorCell types) (w : Worker types) (r : Env types × End types Any)
      → Left a w (ends r.1) (after_handle c a cell w r).1
  unfolding after_handle
  after_handle-Left a cell w (env, unwound actor _) =
      after_stop-Left a w _ (calm (record cell { actor = actor }) _ env)
  after_handle-Left a cell w (env, finished actor ctx) = elim (Bool-cases (is_running ctx)) [
    | inl on ↦ rw on (refl, refl)
    | inr off ↦ rw off (after_stop-Left a w _ (calm (record cell { actor = actor }) _ env))
  ]

  -- The dispatch removes the actor from the scheduler exactly if the log says that it stops it.
  pub dispatch-Left :
      (e : Mail types) (w : Worker types) (env : Env types)
      → Left e.actor_id w (stops c e w env) (dispatch c e w env).1
  unfolding dispatch dispatch_to stops stops_cell
  dispatch-Left e w env = go (get (actor_map w env) e.actor_id)
    where
      go :
          (o : Option (ActorCell types))
          → Left e.actor_id w (stops_cell c e w o env) (dispatch_to c e w o env).1
      go none = (refl, refl)
      go (some cell) = after_handle-Left e.actor_id cell w _

  finish_turn-Follows :
      (a : ℕ) (e : Mail types) (w : Worker types) (b : Bool)
      (r : Env types × Outcome (Worker types))
      → Left e.actor_id w b r.1
      → Follows
          (λ stops. (after_dequeue stops a (w.scheduler, some e)).0)
          (and_then c r (finish_turn c a)).1
  unfolding finish_turn run come after_dequeue
  finish_turn-Follows a e w b (env, panicked m) h = h
  finish_turn-Follows a e w b (env, returned w') h = (b, [], ap (requeue_if_ready a) h.0)

  on_dequeued-Follows :
      (a : ℕ) (w : Worker types) (r : Scheduler (Dispatch types) × Option (Mail types))
      (env : Env types)
      → Follows (λ stops. (after_dequeue stops a r).0) (on_dequeued c a w r env).1
  unfolding on_dequeued run come after_dequeue
  on_dequeued-Follows a w (s, none) env = (false, [], refl)
  on_dequeued-Follows a w (s, some e) env =
      let w' : Worker types = record w { scheduler = s } in
      finish_turn-Follows a e w' (stops c e w' env) (dispatch c e w' env) (dispatch-Left e w' env)

  on_waited-Follows :
      (order : List ℕ → List ℕ) (w : Worker types) (r : Env types × Received types)
      → Open r.1
      → Follows (λ stops. w.scheduler) (on_waited c order w r).1
  unfolding on_waited run come step
  on_waited-Follows order w (env, message e) h = (false, e ∷ [], refl)
  on_waited-Follows order w (env, empty) h = (false, [], refl)
  on_waited-Follows order w (env, disconnected) h = absurd h

  on_ready-Follows :
      (order : List ℕ → List ℕ) (late : List (Mail types)) (w : Worker types)
      (r : Scheduler (Dispatch types) × Option ℕ) (env : Env types)
      → Attached w env
      → Follows (λ stops. (after_ready stops r).0) (on_ready c order late w r env).1
  unfolding on_ready after_ready
  on_ready-Follows order late w (s, some a) env h = on_dequeued-Follows a w (dequeue a s) env
  on_ready-Follows order late w (s, none) env h =
      on_waited-Follows order (record w { scheduler = s }) _
        (try_recv-Open w _ (post_all w.msg_rx late env) (post_all-Attached late w env h).1 h.0
          (post_all-Attached late w env h).2)

  Follows-ext :
      (s s' : (Mail types → Bool) → Scheduler (Dispatch types)) (o : Outcome (Next types))
      → ((stops : Mail types → Bool) → s stops ≡ s' stops)
      → Follows s o
      → Follows s' o
  Follows-ext s s' (panicked m) h f = f
  Follows-ext s s' (returned (returns w)) h f = f
  Follows-ext s s' (returned (goes_on w)) h (b, late, f) =
      (b, late, f ∙ ap (λ x. (run (λ e. b) (come late) x).0) (h (λ e. b)))

  drained-turn :
      (w : Worker types) (env : Env types) (stops : Mail types → Bool)
      → (after_ready stops (next_ready (drain w env).1.scheduler)).0
        ≡ (run stops (come (queued (get env.channels w.msg_rx)) ++ turns ∷ []) w.scheduler).0
  unfolding run step turn
  drained-turn w env stops =
      ap (λ s. (turn stops s).0) (drain-scheduler w env)
      ∙ sym (run-come stops (queued (get env.channels w.msg_rx)) (turns ∷ []) w.scheduler)

  -- An iteration without control messages of a worker attached to its channel, where no `stopped`
  -- panics: whatever the handlers do, the worker goes on, and its scheduler has gone through the
  -- arrival of the messages that waited in the channel, one turn, and the arrival of some later
  -- messages.
  pub serve-turns :
      (order : List ℕ → List ℕ) (late : List (Mail types)) (w : Worker types) (env : Env types)
      → Attached w env
      → Follows
          (λ stops.
            (run stops (come (queued (get env.channels w.msg_rx)) ++ turns ∷ []) w.scheduler).0)
          (serve c order late w env).1
  unfolding serve
  serve-turns order late w env h =
      Follows-ext _ _ (serve c order late w env).1 (drained-turn w env) (
        on_ready-Follows order late (drain w env).1 (next_ready (drain w env).1.scheduler)
          (drain w env).0 (rw (drain-msg_rx w env) (drain-Attached w env h)))
