-- ===== src/Worker/Logged.antt =====
-- src/runtime.rs: who waits for the answer to a message of a worker's log has it.
use actinium_actor.Prelude.{ℕ, ◌≡◌, ◌⊎◌, inl, inr, Option, none, some, List, [], ◌∷◌, ◌++◌}
use actinium_actor.HashMap.{insert}
use actinium_actor.Outcome.{Outcome, returned, panicked}
use actinium_actor.Scheduler.{Scheduler, next_ready, dequeue}
use actinium_actor.Actor.{Code}
use actinium_actor.Actor.Store.{Dispatch, Mail, Env}
use actinium_actor.Actor.Replies.{Answered}
use actinium_actor.Worker.{
  Worker, ControlMsg, spawn_actor, shutdown, Next, goes_on, returns, drain, dispatch, and_then,
  finish_turn, on_dequeued, on_ready, serve, controls, iteration, actor_map, set_actor_map,
}
use actinium_actor.Worker.Run.{Input, again, run}
use actinium_actor.Worker.Log.{
  Log, log_dequeued, log_ready, log_serve, log_controls, log_after, log_run,
}
use actinium_actor.Worker.Answers.{dispatch-Answered}
use actinium_actor.Worker.Settled.{Leaving, again-Answered, run-keeps}

module _ (c : Code) (k : ℕ) where
  open c use {types}

  -- A message of the log has the channel `k` for its answer.
  unfoldable pub Asked : Log types → Type 0
  Asked [] = ⊥
  Asked ((e, b) ∷ l) = (e.dispatch.reply ≡ some k) ⊎ Asked l

  Asked-append : (l r : Log types) → Asked (l ++ r) → Asked l ⊎ Asked r
  unfolding Asked
  Asked-append [] r h = inr h
  Asked-append ((e, b) ∷ l) r (inl h) = inl (inl h)
  Asked-append ((e, b) ∷ l) r (inr h) = elim (Asked-append l r h) [
    | inl h' ↦ inl (inr h')
    | inr h' ↦ inr h'
  ]

module _ (c : Code) (k : ℕ) (order : List ℕ → List ℕ) where
  open c use {types}

  finish_turn-Answered :
      (b : ℕ) (r : Env types × Outcome (Worker types))
      → Answered c k r.0
      → Answered c k (and_then c r (finish_turn c b)).0
  unfolding finish_turn
  finish_turn-Answered b (env, panicked m) h = h
  finish_turn-Answered b (env, returned w) h = h

  on_dequeued-Answered :
      (b : ℕ) (w : Worker types) (r : Scheduler (Dispatch types) × Option (Mail types))
      (env : Env types)
      → Asked c k (log_dequeued c w r env)
      → Answered c k (on_dequeued c b w r env).0
  unfolding on_dequeued log_dequeued Asked
  on_dequeued-Answered b w (s, none) env h = absurd h
  on_dequeued-Answered b w (s, some e) env (inl h) =
      let w' : Worker types = record w { scheduler = s } in
      finish_turn-Answered b (dispatch c e w' env) (dispatch-Answered c k e w' env h)
  on_dequeued-Answered b w (s, some e) env (inr h) = absurd h

  on_ready-Answered :
      (late : List (Mail types)) (w : Worker types) (r : Scheduler (Dispatch types) × Option ℕ)
      (env : Env types)
      → Asked c k (log_ready c w r env)
      → Answered c k (on_ready c order late w r env).0
  unfolding on_ready log_ready Asked
  on_ready-Answered late w (s, none) env h = absurd h
  on_ready-Answered late w (s, some b) env h = on_dequeued-Answered b w (dequeue b s) env h

  controls-Answered :
      (late : List (Mail types)) (q : List (ControlMsg types)) (w : Worker types) (env : Env types)
      → Asked c k (log_controls c q w env)
      → Answered c k (controls c order (serve c order late) q w env).0
  unfolding controls log_controls serve log_serve Asked
  controls-Answered late [] w env h =
      let w' : Worker types = record w { control_rx = [] } in
      on_ready-Answered late (drain w' env).1 (next_ready (drain w' env).1.scheduler)
        (drain w' env).0 h
  controls-Answered late (shutdown ∷ q) w env h = absurd h
  controls-Answered late (spawn_actor id cell confirm ∷ q) w env h =
      controls-Answered late q (record w { confirmed = w.confirmed ++ confirm ∷ [] })
        (set_actor_map w (insert id cell (actor_map w env)) env) h

  again-Asked :
      (next : Worker types → Env types → Env types × Outcome (Next types))
      (log : Worker types → Env types → Log types) (r : Env types × Outcome (Next types))
      → ((w : Worker types) (env : Env types) → Asked c k (log w env) → Answered c k (next w env).0)
      → Asked c k (log_after c log r)
      → Answered c k (again next r).0
  unfolding again log_after Asked
  again-Asked next log (env, panicked m) hn h = absurd h
  again-Asked next log (env, returned (returns w)) hn h = absurd h
  again-Asked next log (env, returned (goes_on w)) hn h = hn w env h

  -- Where the other threads leave the answer, it is there at the end, however the loop ends.
  pub run-logged :
      (xs : List (Input types)) (w : Worker types) (env : Env types)
      → Leaving c k xs
      → Asked c k (log_run c order xs w env)
      → Answered c k (run c order xs w env).0
  unfolding run log_run iteration Asked
  run-logged [] w env leaving h = absurd h
  run-logged (x ∷ xs) w env leaving h =
      let w' : Worker types = record w { control_rx = w.control_rx ++ x.control } in
      let r = iteration c order x.late w' (x.others env) in
      elim (Asked-append c k (log_controls c w'.control_rx w' (x.others env))
        (log_after c (log_run c order xs) r) h) [
          | inl now ↦
              again-Answered c k (run c order xs) r
                (λ w'' env'' h'. run-keeps c k order xs w'' env'' leaving.1 h')
                (controls-Answered x.late w'.control_rx w' (x.others env) now)
          | inr later ↦
              again-Asked (run c order xs) (log_run c order xs) r
                (λ w'' env'' h'. run-logged xs w'' env'' leaving.1 h') later
        ]
