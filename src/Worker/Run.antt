-- ===== src/Worker/Run.antt =====
-- src/runtime.rs: the loop of `Worker::run`.
use actinium_actor.Prelude.{ℕ, Bool, true, false, List, [], ◌∷◌, ◌++◌, if◌then◌else◌}
use actinium_actor.Outcome.{Outcome, returned, panicked}
use actinium_actor.Actor.{Types, Code}
use actinium_actor.Actor.Store.{Mail, Env}
use actinium_actor.Worker.{
  Worker, ControlMsg, spawn_actor, shutdown, Next, goes_on, returns, iteration,
}

-- What other threads do before an iteration: the control messages that they send to the worker, what
-- they do to the shared state, and what they send it while `recv_timeout` waits.
pub record Input (t : Types) : Type 0 where
  pub control : List (ControlMsg t)
  pub others : Env t → Env t
  pub late : List (Mail t)

unfoldable pub again :
    {t : Types}
    → (Worker t → Env t → Env t × Outcome (Next t))
    → Env t × Outcome (Next t)
    → Env t × Outcome (Next t)
again next (env, panicked m) = (env, panicked m)
again next (env, returned (returns w)) = (env, returned (returns w))
again next (env, returned (goes_on w)) = next w env

-- `Worker::run`: one iteration for each input, until one returns.
unfoldable pub run :
    (c : Code)
    → (List ℕ → List ℕ)
    → List (Input c.types)
    → Worker c.types
    → Env c.types
    → Env c.types × Outcome (Next c.types)
unfolding again iteration
run c order [] w env = (env, returned (goes_on w))
run c order (x ∷ xs) w env =
    again (run c order xs) (
      iteration c order x.late (record w { control_rx = w.control_rx ++ x.control }) (x.others env))

module _ {t : Types} where
  -- A shutdown is among the control messages.
  unfoldable pub has_shutdown : List (ControlMsg t) → Bool
  has_shutdown [] = false
  has_shutdown (shutdown ∷ q) = true
  has_shutdown (spawn_actor id cell confirm ∷ q) = has_shutdown q

  -- One of the iterations gets a shutdown.
  unfoldable pub shuts : List (Input t) → Bool
  unfolding has_shutdown
  shuts [] = false
  shuts (x ∷ xs) = let rest = shuts xs in if has_shutdown x.control then true else rest
