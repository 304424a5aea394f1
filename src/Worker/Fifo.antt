-- ===== src/Worker/Fifo.antt =====
-- src/runtime.rs: the order in which the loop of a worker serves the messages of an actor.
use actinium_actor.Prelude.{ℕ, List, [], ◌∷◌}
use actinium_actor.HashMap.{get}
use actinium_actor.Outcome.{Outcome}
use actinium_actor.Actor.{Types}
use actinium_actor.Actor.Store.{Env}
use actinium_actor.Worker.{Worker}
use actinium_actor.Worker.Receive.{queued}
use actinium_actor.Worker.Held.{Held}
use actinium_actor.Worker.Run.{Input}
use actinium_actor.Worker.Log.{Log}
use actinium_actor.Worker.Backlog.{Adds}

-- What other threads do before an iteration only adds to the channel `m`.
abbrev pub Adding : {t : Types} → ℕ → List (Input t) → Type 0
Adding m [] = Unit {0}
Adding m (x ∷ xs) =
    ((env : Env _) → Adds m (queued (get env.channels m)) (x.others env)) × Adding m xs
