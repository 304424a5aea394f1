-- ===== src/TestKit.antt =====
-- src/testkit.rs: the test environment around `ActorSystem`.
use actinium_actor.Prelude.{ℕ, zero, suc, Option, none, some, List, [], ◌∷◌}
use actinium_actor.Outcome.{Outcome, returned, panicked}
use actinium_actor.Actor.{Types, Code, Addr}
use actinium_actor.Actor.Store.{Env}
use actinium_actor.System
use actinium_actor.System.{ActorSystem}
use actinium_actor.System.Loop.{run_once}
pub mod Idle
pub mod Probe
pub mod Records

pub record TestKit (t : Types) : Type 0 where
  pub system : ActorSystem t

unfoldable pub new : {t : Types} → ℕ → TestKit t
new channel = record { system = System.new_system channel }

module _ (c : Code) where
  open c use {types, Any}

  unfoldable pub spawned :
      Env types × Outcome (ActorSystem types × Addr types)
      → Env types × Outcome (TestKit types × Addr types)
  spawned (env, panicked m) = (env, panicked m)
  spawned (env, returned (sys, addr)) = (env, returned (record { system = sys }, addr))

  unfoldable pub spawn :
      Any → TestKit types → Env types → Env types × Outcome (TestKit types × Addr types)
  unfolding spawned
  spawn actor kit env = spawned (System.spawn c actor kit.system env)

  -- What follows a pass: another one, unless it processed nothing.
  unfoldable pub after_pass :
      (TestKit types → Env types → Env types × Option (Outcome (TestKit types)))
      → Env types × Option (Outcome (ActorSystem types × ℕ))
      → Env types × Option (Outcome (TestKit types))
  after_pass next (env, none) = (env, none)
  after_pass next (env, some (panicked m)) = (env, some (panicked m))
  after_pass next (env, some (returned (sys, zero))) =
      (env, some (returned (record { system = sys })))
  after_pass next (env, some (returned (sys, suc n))) = next (record { system = sys }) env

  -- Before each pass, what the other threads do to what is shared; what they do during a pass comes
  -- before its last look. `none`: the passes, or the fuel of one, ran out.
  unfoldable pub run_until_idle :
      List (Env types → Env types)
      → ℕ
      → TestKit types
      → Env types
      → Env types × Option (Outcome (TestKit types))
  unfolding after_pass
  run_until_idle [] fuel kit env = (env, none)
  run_until_idle (others ∷ more) fuel kit env =
      after_pass (run_until_idle more fuel) (run_once c fuel kit.system (others env))
