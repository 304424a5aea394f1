-- ===== src/System/Loop.antt =====
-- src/system.rs: the event loops `run` and `run_once`.
-- `run_once` takes fuel, a bound on the messages that it processes. `run` follows a schedule, in
-- which the clients' threads send and drop their addresses between the receives of the loop.
use actinium_actor.Prelude.{ℕ, zero, suc, Bool, true, false, Option, none, some, List, [], ◌∷◌}
use actinium_actor.HashMap.{get, insert}
use actinium_actor.Outcome.{Outcome, returned, panicked}
use actinium_actor.Actor.{Types, Code}
use actinium_actor.Actor.Store.{Mail, Channel, Env, channel_send}
use actinium_actor.System.{
  ActorSystem, Received, message, empty, disconnected, try_recv, dispatch, stop_all_actors,
}

abbrev pub is_some {ℓ} : {A : Type ℓ} → Option A → Bool
is_some none = false
is_some (some a) = true

-- What a client's thread does: it sends an envelope, or drops the last address there is.
pub data Event (t : Types) : Type 0 where
  posts : Mail t → Event t
  hangs_up : Event t
  -- the loop calls `recv`; where nothing has come it goes on waiting
  receives : Event t

module _ {t : Types} where
  unfoldable pub drop_clients : ℕ → Option (Channel t) → Env t → Env t
  drop_clients k none env = env
  drop_clients k (some ch) env = record env {
    channels = insert k (record ch { clients = false }) env.channels;
  }

  unfoldable pub hang_up : ℕ → Env t → Env t
  unfolding drop_clients
  hang_up k env = drop_clients k (get env.channels k) env

module _ (c : Code) where
  open c use {types}

  unfoldable pub after_dispatch :
      {X : Type 0}
      → (ActorSystem types → Env types → Env types × Option (Outcome X))
      → Env types × Outcome (ActorSystem types)
      → Env types × Option (Outcome X)
  after_dispatch next (env, panicked m) = (env, some (panicked m))
  after_dispatch next (env, returned sys) = next sys env

  -- What a loop does with what it receives: `next` after a message, `idle` where there is none.
  unfoldable pub on_received :
      {X : Type 0}
      → (ActorSystem types → Env types → Env types × Option (Outcome X))
      → (idle gone : Env types → Env types × Option (Outcome X)) → ActorSystem types
      → Env types × Received types
      → Env types × Option (Outcome X)
  unfolding after_dispatch
  on_received next idle gone sys (env, message e) = after_dispatch next (dispatch c e sys env)
  on_received next idle gone sys (env, empty) = idle env
  on_received next idle gone sys (env, disconnected) = gone env

  -- `none`: the fuel ran out.
  unfoldable pub run_once_loop :
      ℕ → ℕ → ActorSystem types → Env types → Env types × Option (Outcome (ActorSystem types × ℕ))
  unfolding on_received
  run_once_loop zero count sys env = (env, none)
  run_once_loop (suc fuel) count sys env =
      on_received (run_once_loop fuel (suc count)) (λ env'. (env', some (returned (sys, count))))
        (λ env'. (env', some (returned (sys, count)))) sys (try_recv sys.rx (is_some sys.tx) env)

  unfoldable pub run_once :
      ℕ → ActorSystem types → Env types → Env types × Option (Outcome (ActorSystem types × ℕ))
  unfolding run_once_loop
  run_once fuel sys env = run_once_loop fuel 0 sys env

  -- The end of `run`.
  unfoldable pub leave :
      (List ℕ → List ℕ)
      → ActorSystem types
      → Env types
      → Env types × Option (Outcome (ActorSystem types))
  leave order sys env = let (env', r) = stop_all_actors c order sys env in (env', some r)

  -- `while self.running`.
  unfoldable pub while_running :
      (List ℕ → List ℕ)
      → Bool
      → ActorSystem types
      → Env types
      → Env types × Option (Outcome (ActorSystem types))
      → Env types × Option (Outcome (ActorSystem types))
  unfolding leave
  while_running order false sys env body = leave order sys env
  while_running order true sys env body = body

  -- `none`: the schedule ended while the loop was waiting.
  unfoldable pub run_loop :
      (List ℕ → List ℕ)
      → List (Event types)
      → ActorSystem types
      → Env types
      → Env types × Option (Outcome (ActorSystem types))
  unfolding while_running on_received
  run_loop order [] sys env = while_running order sys.running sys env (env, none)
  run_loop order (posts e ∷ es) sys env =
      let rest = run_loop order es sys (channel_send sys.rx e env).0 in
      while_running order sys.running sys env rest
  run_loop order (hangs_up ∷ es) sys env =
      let rest = run_loop order es sys (hang_up sys.rx env) in
      while_running order sys.running sys env rest
  run_loop order (receives ∷ es) sys env =
      let rest =
        on_received (run_loop order es) (run_loop order es sys)
          (run_loop order es (record sys { running = false })) sys
          (try_recv sys.rx (is_some sys.tx) env) in
      while_running order sys.running sys env rest

  unfoldable pub run :
      (List ℕ → List ℕ)
      → List (Event types)
      → ActorSystem types
      → Env types
      → Env types × Option (Outcome (ActorSystem types))
  unfolding run_loop
  run order schedule sys env =
      run_loop order schedule (record sys { running = true; tx = none }) env
