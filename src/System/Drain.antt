-- ===== src/System/Drain.antt =====
-- What the loops leave behind.
use actinium_actor.Prelude.{
  ℕ, zero, suc, ◌≡◌, refl, ◌∙◌, subst, Bool, true, false, Option, none, some, List, [], ◌∷◌, arith,
  contains,
}
use actinium_actor.HashMap.{get}
use actinium_actor.Outcome.{Outcome, returned, panicked, Ensures}
use actinium_actor.Actor.{Types, Code}
use actinium_actor.Actor.Store.{Mail, Channel, Env}
use actinium_actor.System.{
  ActorSystem, Received, message, empty, disconnected, try_recv, try_recv_on, take_first, dispatch,
  shutdown,
}
use actinium_actor.System.Dispatching.{Ensures-map, stop_all_actors-none}
use actinium_actor.System.Shell.{dispatch-Same}
use actinium_actor.System.Loop.{
  is_some, run_once_loop, run_once, run_loop, run, Event, posts, hangs_up, receives, leave,
  on_received, after_dispatch, while_running,
}

-- Nothing waits in a channel.
abbrev pub Drained : {t : Types} → ℕ → Env t → Type 0
Drained k env = (ch : Channel _) → get env.channels k ≡ some ch → ch.queue ≡ []

module _ (c : Code) where
  open c use {types}

  -- A `shutdown` before `run` changes nothing about it.
  pub run-shutdown :
      (order : List ℕ → List ℕ) (schedule : List (Event types)) (sys : ActorSystem types)
      (env : Env types)
      → run c order schedule (shutdown sys) env ≡ run c order schedule sys env
  unfolding run shutdown
  run-shutdown order schedule sys env = refl

  -- A result of `run`, if there is one, and if it is not a panic.
  abbrev pub Leaves : Option (Outcome (ActorSystem types)) → (ActorSystem types → Type 0) → Type 0
  Leaves none P = Unit {0}
  Leaves (some o) P = Ensures o P

  after_dispatch-Leaves :
      (P : ActorSystem types → Type 0)
      (next : ActorSystem types → Env types → Env types × Option (Outcome (ActorSystem types)))
      (r : Env types × Outcome (ActorSystem types))
      → ((sys : ActorSystem types) (env : Env types) → Leaves (next sys env).1 P)
      → Leaves (after_dispatch c next r).1 P
  unfolding after_dispatch
  after_dispatch-Leaves P next (env, panicked m) h = tt
  after_dispatch-Leaves P next (env, returned sys) h = h sys env

  on_received-Leaves :
      (P : ActorSystem types → Type 0)
      (next : ActorSystem types → Env types → Env types × Option (Outcome (ActorSystem types)))
      (idle gone : Env types → Env types × Option (Outcome (ActorSystem types)))
      (sys : ActorSystem types) (r : Env types × Received types)
      → ((sys : ActorSystem types) (env : Env types) → Leaves (next sys env).1 P)
      → ((env : Env types) → Leaves (idle env).1 P)
      → ((env : Env types) → Leaves (gone env).1 P)
      → Leaves (on_received c next idle gone sys r).1 P
  unfolding on_received
  on_received-Leaves P next idle gone sys (env, message e) h i g =
      after_dispatch-Leaves P next (dispatch c e sys env) h
  on_received-Leaves P next idle gone sys (env, empty) h i g = i env
  on_received-Leaves P next idle gone sys (env, disconnected) h i g = g env

  module _ (order : List ℕ → List ℕ)
      (perm : (l : List ℕ) (a : ℕ) → contains (order l) a ≡ contains l a) (a : ℕ) where
    abbrev Gone : ActorSystem types → Type 0
    Gone sys = get sys.actors a ≡ none

    while_running-Gone :
        (b : Bool) (sys : ActorSystem types) (env : Env types)
        (body : Env types × Option (Outcome (ActorSystem types)))
        → Leaves body.1 Gone
        → Leaves (while_running c order b sys env body).1 Gone
    unfolding while_running leave
    while_running-Gone false sys env body h = stop_all_actors-none c order sys env perm a
    while_running-Gone true sys env body h = h

    run_loop-Gone :
        (es : List (Event types)) (sys : ActorSystem types) (env : Env types)
        → Leaves (run_loop c order es sys env).1 Gone
    unfolding run_loop
    run_loop-Gone [] sys env = while_running-Gone sys.running sys env _ tt
    run_loop-Gone (posts e ∷ es) sys env =
        while_running-Gone sys.running sys env _ (run_loop-Gone es sys _)
    run_loop-Gone (hangs_up ∷ es) sys env =
        while_running-Gone sys.running sys env _ (run_loop-Gone es sys _)
    run_loop-Gone (receives ∷ es) sys env = while_running-Gone sys.running sys env _ (
        on_received-Leaves Gone (run_loop c order es) (run_loop c order es sys)
          (run_loop c order es (record sys { running = false })) sys
          (try_recv sys.rx (is_some sys.tx) env) (run_loop-Gone es) (run_loop-Gone es sys)
          (run_loop-Gone es (record sys { running = false })))

    -- If `run` returns, every actor has been removed, whatever happened in between and in whatever
    -- order the map gives its keys.
    pub run-stops_all :
        (es : List (Event types)) (sys : ActorSystem types) (env : Env types)
        → Leaves (run c order es sys env).1 (λ sys'. get sys'.actors a ≡ none)
    unfolding run
    run-stops_all es sys env = run_loop-Gone es _ env

-- `try_recv` reports that nothing came only where nothing waits.
abbrev Settled : {t : Types} → ℕ → Env t × Received t → Type 0
Settled k (env, message e) = Unit {0}
Settled k (env, empty) = Drained k env
Settled k (env, disconnected) = Drained k env

take_first-Settled :
    {t : Types} (k : ℕ) (ch : Channel t) (connected : Bool) (q : List (Mail t)) (env : Env t)
    → get env.channels k ≡ some ch
    → q ≡ ch.queue
    → Settled k (take_first k ch connected q env)
unfolding take_first
take_first-Settled k ch connected (e ∷ q) env h p = tt
take_first-Settled k ch true [] env h p = λ ch' h'. ground arith
take_first-Settled k ch false [] env h p = λ ch' h'. ground arith

try_recv_on-Settled :
    {t : Types} (k : ℕ) (held : Bool) (o : Option (Channel t)) (env : Env t)
    → get env.channels k ≡ o
    → Settled k (try_recv_on k held o env)
unfolding try_recv_on
try_recv_on-Settled k held none env h = λ ch h'. cc
try_recv_on-Settled k held (some ch) env h = take_first-Settled k ch _ ch.queue env h refl

try_recv-Settled : {t : Types} (k : ℕ) (held : Bool) (env : Env t) → Settled k (try_recv k held env)
unfolding try_recv
try_recv-Settled k held env = try_recv_on-Settled k held (get env.channels k) env refl

module _ (c : Code) where
  open c use {types}

  -- A pass that ends leaves the channel drained.
  abbrev pub Ends : ℕ → Env types × Option (Outcome (ActorSystem types × ℕ)) → Type 0
  Ends k (env, none) = Unit {0}
  Ends k (env, some (panicked m)) = Unit {0}
  Ends k (env, some (returned x)) = (x.0.rx ≡ k) × Drained k env

  after_dispatch-Ends :
      (k : ℕ)
      (next : ActorSystem types → Env types → Env types × Option (Outcome (ActorSystem types × ℕ)))
      (r : Env types × Outcome (ActorSystem types))
      → Ensures r.1 (λ s. s.rx ≡ k)
      → ((sys : ActorSystem types) (env : Env types) → sys.rx ≡ k → Ends k (next sys env))
      → Ends k (after_dispatch c next r)
  unfolding after_dispatch
  after_dispatch-Ends k next (env, panicked m) h n = tt
  after_dispatch-Ends k next (env, returned sys) h n = n sys env h

  on_received-Ends :
      (k count : ℕ)
      (next : ActorSystem types → Env types → Env types × Option (Outcome (ActorSystem types × ℕ)))
      (sys : ActorSystem types) (r : Env types × Received types)
      → sys.rx ≡ k
      → Settled k r
      → ((sys : ActorSystem types) (env : Env types) → sys.rx ≡ k → Ends k (next sys env))
      → Ends k (
          on_received c next
            (λ env'. (env', some (returned (sys, count))))
            (λ env'. (env', some (returned (sys, count))))
            sys
            r)
  unfolding on_received
  on_received-Ends k count next sys (env, message e) h s n =
      after_dispatch-Ends k next (dispatch c e sys env)
        (Ensures-map c (dispatch c e sys env).1 _ _ (dispatch-Same c e sys env) (λ s' p. p.0 ∙ h)) n
  on_received-Ends k count next sys (env, empty) h s n = (h, s)
  on_received-Ends k count next sys (env, disconnected) h s n = (h, s)

  run_once_loop-Ends :
      (k fuel count : ℕ) (sys : ActorSystem types) (env : Env types)
      → sys.rx ≡ k
      → Ends k (run_once_loop c fuel count sys env)
  unfolding run_once_loop
  run_once_loop-Ends k zero count sys env h = tt
  run_once_loop-Ends k (suc fuel) count sys env h =
      on_received-Ends k count (run_once_loop c fuel (suc count)) sys _ h
        (subst (λ n. Settled n (try_recv sys.rx (is_some sys.tx) env)) h
          (try_recv-Settled sys.rx _ env))
        (run_once_loop-Ends k fuel (suc count))

  -- `run_once` returns only when nothing waits in the channel, whatever the handlers sent meanwhile.
  pub run_once-Drained :
      (fuel : ℕ) (sys : ActorSystem types) (env : Env types) → Ends sys.rx (run_once c fuel sys env)
  unfolding run_once
  run_once-Drained fuel sys env = run_once_loop-Ends sys.rx fuel 0 sys env refl
