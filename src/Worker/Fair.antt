-- ===== src/Worker/Fair.antt =====
-- src/runtime.rs: how long who waits in `Addr::send` waits for the loop of a worker.
use actinium_actor.Prelude.{
  contains, ℕ, suc, ◌<◌, ◌≡◌, refl, ap, ◌∙◌, subst, Bool, true, false, Option, none, some, List, [],
  ◌∷◌, ◌++◌, arith, inl, inr, ◌⊎◌, length,
}
use actinium_actor.HashMap.{insert}
use actinium_actor.Outcome.{Outcome, returned, panicked}
use actinium_actor.Scheduler.{Scheduler, next_ready, dequeue, turn, after_ready, after_dequeue}
use actinium_actor.Scheduler.Invariant.{Valid}
use actinium_actor.Scheduler.Fairness.{ahead}
use actinium_actor.Actor.{Code}
use actinium_actor.Actor.Store.{Dispatch, Mail, Env}
use actinium_actor.Actor.Replies.{Answered}
use actinium_actor.Worker.{
  Worker, ControlMsg, spawn_actor, shutdown, Next, goes_on, returns, drain, leave, stop_all_actors,
  dispatch, and_then, finish_turn, on_dequeued, on_ready, serve, controls, iteration, actor_map,
  set_actor_map,
}
use actinium_actor.Worker.Receive.{Calm, Left}
use actinium_actor.Worker.Turn.{dispatch-Left}
use actinium_actor.Worker.Held.{Held}
use actinium_actor.Worker.Sound.{Is}
use actinium_actor.Worker.Run.{Input, again, run, shuts, has_shutdown}
use actinium_actor.Worker.Forever.{Keeping, Runs, iteration-Runs}
use actinium_actor.Worker.Log.{Log, flag, stops, log_dequeued, log_ready, log_serve}
use actinium_actor.Worker.Backlog.{drain-Valid}
use actinium_actor.Worker.Answers.{dispatch-Answered}
use actinium_actor.Worker.Oldest.{Oldest, Turned, turn-Turned, drain-Oldest}
use actinium_actor.Worker.Settled.{Leaving, run-keeps}

module _ (c : Code) (calm : Calm c) (a k : ℕ) (e : Mail c.types)
    (asks : e.dispatch.reply ≡ some k) where
  open c use {types, Any}

  -- Where the worker goes on: whoever waits for the answer to `e` has it, or actor `a`, before which
  -- the actors `before` stood, stands one place further up.
  abbrev Nearer : List ℕ → Env types × Outcome (Next types) → Type 0
  Nearer before (env, panicked m) = Unit {0}
  Nearer before (env, returned (returns w)) = Unit {0}
  Nearer before (env, returned (goes_on w)) =
      Answered c k env
      ⊎ (Oldest a e w.scheduler × (length before ≡ suc (length (ahead a w.scheduler.ready_queue))))

  finish_turn-Nearer :
      (st : Mail types → Bool) (b : ℕ) (m : Mail types) (w : Worker types) (before : List ℕ)
      (r : Env types × Outcome (Worker types))
      → Left m.actor_id w (st m) r.1
      → (m ≡ e → Answered c k r.0)
      → Turned a e before (after_dequeue st b (w.scheduler, some m))
      → Nearer before (and_then c r (finish_turn c b))
  unfolding finish_turn after_dequeue
  finish_turn-Nearer st b m w before (env, panicked x) left answered h = tt
  finish_turn-Nearer st b m w before (env, returned w') (left, rx) answered (m', out, h) =
      let same : m ≡ m' = cc in
      elim h [
        | inl its ↦ inl (answered (same ∙ its))
        | inr (oldest, up) ↦ inr (rw left (oldest, up))
      ]

  on_dequeued-Nearer :
      (st : Mail types → Bool) (b : ℕ) (w : Worker types)
      (r : Scheduler (Dispatch types) × Option (Mail types)) (env : Env types) (before : List ℕ)
      → ((m : Mail types) (x : Bool) → log_dequeued c w r env ≡ (m, x) ∷ [] → st m ≡ x)
      → Turned a e before (after_dequeue st b r)
      → Nearer before (on_dequeued c b w r env)
  unfolding on_dequeued log_dequeued after_dequeue
  on_dequeued-Nearer st b w (s, none) env before agree (m, out, h) = absurd cc
  on_dequeued-Nearer st b w (s, some m) env before agree h =
      let w' : Worker types = record w { scheduler = s } in
      finish_turn-Nearer st b m w' before (dispatch c m w' env)
        (rw (agree m (stops c m w' env) refl) (dispatch-Left c calm m w' env))
        (λ its.
          dispatch-Answered c k m w' env (ap (λ (x : Mail types). x.dispatch.reply) its ∙ asks))
        h

  on_ready-Nearer :
      (order : List ℕ → List ℕ) (late : List (Mail types)) (st : Mail types → Bool)
      (w : Worker types) (r : Scheduler (Dispatch types) × Option ℕ) (env : Env types)
      (before : List ℕ)
      → ((m : Mail types) (x : Bool) → log_ready c w r env ≡ (m, x) ∷ [] → st m ≡ x)
      → Turned a e before (after_ready st r)
      → Nearer before (on_ready c order late w r env)
  unfolding on_ready log_ready after_ready
  on_ready-Nearer order late st w (s, some b) env before agree h =
      on_dequeued-Nearer st b w (dequeue b s) env before agree h
  on_ready-Nearer order late st w (s, none) env before agree (m, out, h) = absurd cc

  serve-Nearer :
      (order : List ℕ → List ℕ) (late : List (Mail types)) (w : Worker types) (env : Env types)
      → Valid w.scheduler
      → Oldest a e w.scheduler
      → Nearer (ahead a w.scheduler.ready_queue) (serve c order late w env)
  unfolding serve log_serve
  serve-Nearer order late w env v h =
      let w' = (drain w env).1 in
      let st : Mail types → Bool = λ m. flag (log_serve c w env) in
      let (oldest, same) = drain-Oldest a e w env h in
      on_ready-Nearer order late st w' (next_ready w'.scheduler) (drain w env).0
        (ahead a w.scheduler.ready_queue) (λ m x eq. ap (λ (l : Log types). flag l) eq)
        (unfold turn in
          subst (λ before. Turned a e before (turn st w'.scheduler)) same
            (turn-Turned a e st w'.scheduler (drain-Valid w env v) oldest))

  leave-Nearer :
      (order : List ℕ → List ℕ) (w : Worker types) (before : List ℕ) (env : Env types)
      → Nearer before (leave c order w env)
  unfolding leave
  leave-Nearer order w before env = go (stop_all_actors c order w env)
    where
      go :
          (r : Env types × Outcome (Worker types))
          → Nearer before (and_then c r (λ w' env'. (env', returned (returns w'))))
      go (env', panicked m) = tt
      go (env', returned w') = tt

  controls-Nearer :
      (order : List ℕ → List ℕ) (late : List (Mail types)) (q : List (ControlMsg types))
      (w : Worker types) (env : Env types)
      → Valid w.scheduler
      → Oldest a e w.scheduler
      → Nearer (ahead a w.scheduler.ready_queue) (controls c order (serve c order late) q w env)
  unfolding controls set_actor_map
  controls-Nearer order late [] w env v h =
      serve-Nearer order late (record w { control_rx = [] }) env v h
  controls-Nearer order late (shutdown ∷ q) w env v h =
      leave-Nearer order (record w { control_rx = q }) (ahead a w.scheduler.ready_queue) env
  controls-Nearer order late (spawn_actor id cell confirm ∷ q) w env v h =
      controls-Nearer order late q (record w { confirmed = w.confirmed ++ confirm ∷ [] })
        (set_actor_map w (insert id cell (actor_map w env)) env) v h

  module _ (order : List ℕ → List ℕ) (txs : List ℕ) (n : ℕ) (shut : List ℕ) (m i : ℕ)
      (has : contains txs m ≡ true) (fits : i < n) where
    again-Answered :
        (xs : List (Input types)) (before : List ℕ) (r : Env types × Outcome (Next types))
        → Held txs n shut r.0 × Runs m i false r.1
        → Leaving c k xs
        → Nearer before r
        → length before < suc (length xs)
        → ((w : Worker types) (env : Env types)
            → Is m i [] w
            → Held txs n shut env
            → Valid w.scheduler
            → Oldest a e w.scheduler
            → length (ahead a w.scheduler.ready_queue) < length xs
            → Answered c k (run c order xs w env).0)
        → Answered c k (again (run c order xs) r).0
    unfolding again
    again-Answered xs before (env, panicked x) (h, runs) leaving near lt rest = absurd runs
    again-Answered xs before (env, returned (returns w)) (h, runs) leaving near lt rest =
        absurd (ground (arith, runs.0))
    again-Answered xs before (env, returned (goes_on w)) (h, (x, is, v)) leaving near lt rest =
        elim near [
          | inl now ↦ run-keeps c k order xs w env leaving now
          | inr (oldest, up) ↦ rest w env is h v oldest (omega arith)
        ]

    -- Somebody waits in `send` for the answer to message `e`, the oldest that waits for an actor in a
    -- worker with a channel, an actor map and a valid scheduler, where no `stopped` panics and the
    -- other threads keep channels, senders, maps and an answer that is there: once there have been
    -- more iterations without a shutdown than there are actors before it in the ready queue, the
    -- answer is there, whatever the handlers do and whatever is sent and spawned in the meantime.
    pub run-Answered :
        (xs : List (Input types)) (w : Worker types) (env : Env types)
        → Keeping txs n shut xs
        → Leaving c k xs
        → Is m i [] w
        → Held txs n shut env
        → Valid w.scheduler
        → shuts xs ≡ false
        → Oldest a e w.scheduler
        → length (ahead a w.scheduler.ready_queue) < length xs
        → Answered c k (run c order xs w env).0
    unfolding run iteration shuts
    run-Answered [] w env keep leaving is h v on oldest lt = absurd (omega arith)
    run-Answered (x ∷ xs) w env keep leaving is h v on oldest lt =
        let w' : Worker types = record w { control_rx = x.control } in
        let env' = x.others env in
        let no_ : has_shutdown x.control ≡ false = ground (arith, on) in
        let no_more : shuts xs ≡ false = ground (arith, on) in
        rw (is.2) (
          again-Answered xs (ahead a w.scheduler.ready_queue) (iteration c order x.late w' env')
            (rw (← no_) (
              iteration-Runs c calm order txs n shut m i has fits x.late w' env' (is.0, is.1, refl)
                (keep.0 env h) v))
            leaving.1 (controls-Nearer order x.late x.control w' env' v oldest) lt
            (λ w'' env'' is'' h'' v'' oldest'' lt'.
              run-Answered xs w'' env'' keep.1 leaving.1 is'' h'' v'' no_more oldest'' lt'))
