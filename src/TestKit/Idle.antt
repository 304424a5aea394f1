-- ===== src/TestKit/Idle.antt =====
-- `run_until_idle` comes to one pass.
use actinium_actor.Prelude.{
  ℕ, zero, suc, List, ◌∷◌, ◌≡◌, refl, sym, subst, ◌⊎◌, inl, inr, Bool, true, Option, none, some,
  Option-cases, Bool-cases, if◌then◌else◌,
}
use actinium_actor.HashMap.{get}
use actinium_actor.Outcome.{Outcome, returned, panicked}
use actinium_actor.Actor.{Types, Code}
use actinium_actor.Actor.Store.{Env}
use actinium_actor.System.{ActorSystem, empty, disconnected, try_recv, try_recv_on, take_first}
use actinium_actor.System.Loop.{is_some, run_once, run_once_loop, on_received}
use actinium_actor.System.Drain.{Drained, Ends, run_once-Drained}
use actinium_actor.TestKit.{TestKit, after_pass, run_until_idle}

try_recv-Drained :
    {t : Types} (k : ℕ) (held : Bool) (env : Env t)
    → Drained k env
    → (try_recv k held env ≡ (env, empty)) ⊎ (try_recv k held env ≡ (env, disconnected))
unfolding try_recv try_recv_on take_first
try_recv-Drained k held env h = elim (Option-cases (get env.channels k)) [
  | inl gone ↦ inr (rw gone)
  | inr (ch, there) ↦ elim (Bool-cases (if held then true else ch.clients)) [
    | inl on ↦ inl (rw (there, h ch there, on))
    | inr off ↦ inr (rw (there, h ch there, off))
  ]
]

module _ (c : Code) where
  open c use {types}

  -- A pass over a channel where nothing waits.
  run_once-idle :
      (fuel : ℕ) (sys : ActorSystem types) (env : Env types)
      → Drained sys.rx env
      → run_once c (suc fuel) sys env ≡ (env, some (returned (sys, 0)))
  unfolding run_once run_once_loop on_received
  run_once-idle fuel sys env h = elim (try_recv-Drained sys.rx (is_some sys.tx) env h) [
    | inl e ↦ rw e
    | inr e ↦ rw e
  ]

  -- The kit after one pass, and after what the others do if it processed a message.
  unfoldable pub kit_of :
      (Env types → Env types)
      → Env types × Option (Outcome (ActorSystem types × ℕ))
      → Env types × Option (Outcome (TestKit types))
  kit_of later (env, none) = (env, none)
  kit_of later (env, some (panicked m)) = (env, some (panicked m))
  kit_of later (env, some (returned (sys, zero))) = (env, some (returned (record { system = sys })))
  kit_of later (env, some (returned (sys, suc n))) =
      (later env, some (returned (record { system = sys })))

  after_pass-idle :
      (k fuel : ℕ) (later : Env types → Env types) (more : List (Env types → Env types))
      (r : Env types × Option (Outcome (ActorSystem types × ℕ)))
      → ((env : Env types) → Drained k env → Drained k (later env))
      → Ends c k r
      → after_pass c (run_until_idle c (later ∷ more) (suc fuel)) r ≡ kit_of later r
  unfolding after_pass kit_of run_until_idle
  after_pass-idle k fuel later more (env, none) quiet h = refl
  after_pass-idle k fuel later more (env, some (panicked m)) quiet h = refl
  after_pass-idle k fuel later more (env, some (returned (sys, zero))) quiet h = refl
  after_pass-idle k fuel later more (env, some (returned (sys, suc n))) quiet (same, idle) =
      rw
        (run_once-idle fuel sys (later env)
          (subst (λ j. Drained j (later env)) (sym same) (quiet env idle)))
        refl

  -- Where the other threads do anything before the first pass, but between it and a second one leave
  -- the system's channel empty if it was, two passes are enough, with some fuel for each:
  -- `run_until_idle` comes to what one `run_once` comes to, its panics included, and a second pass,
  -- made if the first one processed a message, finds nothing.
  pub run_until_idle-run_once :
      (fuel : ℕ) (first later : Env types → Env types) (more : List (Env types → Env types))
      (kit : TestKit types) (env : Env types)
      → ((env' : Env types) → Drained kit.system.rx env' → Drained kit.system.rx (later env'))
      → run_until_idle c (first ∷ later ∷ more) (suc fuel) kit env
        ≡ kit_of later (run_once c (suc fuel) kit.system (first env))
  unfolding run_until_idle
  run_until_idle-run_once fuel first later more kit env quiet =
      after_pass-idle kit.system.rx fuel later more (run_once c (suc fuel) kit.system (first env))
        quiet (run_once-Drained c (suc fuel) kit.system (first env))
