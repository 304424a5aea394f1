-- ===== src/Worker/Settled.antt =====
-- src/runtime.rs: an answer that somebody waits for stays over the iterations of a worker.
use actinium_actor.Prelude.{
  ℕ, refl, Bool, true, false, Option, none, some, List, [], ◌∷◌, ◌++◌, Bool-cases, inl, inr,
  if◌then◌else◌,
}
use actinium_actor.HashMap.{get, insert}
use actinium_actor.Outcome.{Outcome, returned, panicked}
use actinium_actor.Scheduler.{pending}
use actinium_actor.Actor.{Code}
use actinium_actor.Actor.Store.{
  Mail, ActorCell, Channel, SpawnShared, Env, channel_send, push, drop_envelope, receive_reply,
}
use actinium_actor.Actor.Exec.{with_spawner}
use actinium_actor.Actor.Spawner
use actinium_actor.Actor.Replies.{Answered}
use actinium_actor.Worker.{
  Worker, Next, goes_on, returns, set_actor_map, forget, post_all, stop_taken, stop_actor,
}
use actinium_actor.Worker.Answers.{
  drop_reply-Answered, same-Answered, stopped-Answered, drop_all-Answered, dispatch-keeps,
}
use actinium_actor.Worker.Survives.{Survives, iteration-Inv}
use actinium_actor.Worker.Run.{Input, again, run}

module _ (c : Code) (k : ℕ) where
  open c use {types, Any}

  -- What the other threads do before each iteration leaves the answer.
  abbrev pub Leaving : List (Input types) → Type 0
  Leaving [] = Unit {0}
  Leaving (x ∷ xs) =
      ((env : Env types) → Answered c k env → Answered c k (x.others env)) × Leaving xs

  channel_send-Answered :
      (j : ℕ) (e : Mail types) (env : Env types)
      → Answered c k env
      → Answered c k (channel_send j e env).0
  unfolding channel_send drop_envelope insert receive_reply
  channel_send-Answered j e env h = go (get env.channels j)
    where
      go :
          (o : Option (Channel types))
          → Answered c k
              (elim o as (λ x. Env types × Bool) [
                | none ↦ (drop_envelope e env, false)
                | some ch ↦
                    if ch.receiver then (push j ch e env, true) else (drop_envelope e env, false)
              ]).0
      go none = drop_reply-Answered c k e.dispatch.reply env h
      go (some ch) = elim (Bool-cases ch.receiver) [
        | inl on ↦ rw on (same-Answered c k env (push j ch e env) (unfold push in refl) h)
        | inr off ↦ rw off (drop_reply-Answered c k e.dispatch.reply env h)
      ]

  post_all-Answered :
      (j : ℕ) (l : List (Mail types)) (env : Env types)
      → Answered c k env
      → Answered c k (post_all j l env)
  unfolding post_all
  post_all-Answered j [] env h = h
  post_all-Answered j (e ∷ l) env h = post_all-Answered j l _ (channel_send-Answered j e env h)

  stop_actor-Answered :
      (a : ℕ) (w : Worker types) (env : Env types)
      → Answered c k env
      → Answered c k (stop_actor c a w env).0
  unfolding stop_actor stop_taken forget
  stop_actor-Answered a w env h = go (Spawner.remove_actor a w.worker_idx env.shared)
    where
      go :
          (o : Outcome (Option (ActorCell types) × SpawnShared types))
          → Answered c k (stop_taken c a w env o).0
      go (panicked m) = h
      go (returned (none, s)) =
          drop_all-Answered c k (pending w.scheduler a) (record env { shared = s })
            (same-Answered c k env (record env { shared = s }) refl h)
      go (returned (some cell, s)) =
          stopped-Answered c k a cell (with_spawner a w.worker_idx) w (record env { shared = s })
            (same-Answered c k env (record env { shared = s }) refl h)

  -- An answer survives what a worker does.
  answer_survives : (m : ℕ) → Survives c m (Answered c k)
  answer_survives m = record {
    dispatches = dispatch-keeps c k;
    stops = stop_actor-Answered;
    maps = λ w actors env h.
        same-Answered c k env (set_actor_map w actors env) (unfold set_actor_map in refl) h;
    posts = post_all-Answered m;
    takes = λ ch env h.
        same-Answered c k env (record env { channels = insert m ch env.channels }) refl h;
  }

  pub again-Answered :
      (next : Worker types → Env types → Env types × Outcome (Next types))
      (r : Env types × Outcome (Next types))
      → ((w : Worker types) (env : Env types) → Answered c k env → Answered c k (next w env).0)
      → Answered c k r.0
      → Answered c k (again next r).0
  unfolding again
  again-Answered next (env, panicked m) hn h = h
  again-Answered next (env, returned (returns w)) hn h = h
  again-Answered next (env, returned (goes_on w)) hn h = hn w env h

  pub run-keeps :
      (order : List ℕ → List ℕ) (xs : List (Input types)) (w : Worker types) (env : Env types)
      → Leaving xs
      → Answered c k env
      → Answered c k (run c order xs w env).0
  unfolding run
  run-keeps order [] w env leaving h = h
  run-keeps order (x ∷ xs) w env leaving h =
      again-Answered (run c order xs) _ (λ w' env' h'. run-keeps order xs w' env' leaving.1 h')
        (iteration-Inv c w.msg_rx (Answered c k) (answer_survives w.msg_rx) order x.late
          (record w { control_rx = w.control_rx ++ x.control }) (x.others env) refl
          (leaving.0 env h))
