-- ===== src/Examples/Threads.antt =====
-- src/runtime.rs: two worker threads with the counters, in steps of several threads.
use actinium_actor.Prelude.{◌≡◌, refl, some, false, List, [], ◌∷◌, arith}
use actinium_actor.HashMap.{get, insert}
use actinium_actor.Scheduler.{enqueue, new, pending}
use actinium_actor.Scheduler.Invariant.{new-Valid, enqueue-Valid}
use actinium_actor.Actor.{Addr}
use actinium_actor.Actor.Store.{Mail, do_send, Env, pick_worker, allocate_id}
use actinium_actor.Actor.Exec.{exec}
use actinium_actor.Worker.{Worker, ControlMsg, iteration, spawn_actor}
use actinium_actor.Worker.Run.{Input, run, shuts, has_shutdown}
use actinium_actor.Worker.Forever.{Runs}
use actinium_actor.Worker.Admission.{ids}
use actinium_actor.Worker.Fair.{run-Answered}
use actinium_actor.Worker.Oldest.{Oldest}
use actinium_actor.Actor.Replies.{Answered}
use actinium_actor.Outcome.{returned}
use actinium_actor.Runtime.{Runtime, new_worker, control, with_threads, range, spawn}
use actinium_actor.Runtime.Sound.{Sound}
use actinium_actor.Runtime.Steps.{Reach, starts, later, spawns, posts, Reach-goes_on, Reach-Alive}
use actinium_actor.Runtime.Admission.{Admitted, spawn-Admitted}
use actinium_actor.Examples.Systems.{types, counters, asks, env, cell}
use actinium_actor.Examples.Workers.{shared_env, worker, counters-Calm}
use actinium_actor.Examples.Ends.{shared_env-Held}

-- Four iterations, in the third of which a message arrives while the worker waits.
abbrev sends : List (Input types)
sends =
    record { control = []; others = λ e. e; late = [] }
    ∷ record { control = []; others = λ e. e; late = [] }
    ∷ record { control = []; others = λ e. e; late = asks 1 3 ∷ [] }
    ∷ record { control = []; others = λ e. e; late = [] }
    ∷ []

-- The handler of this message panics; its sender waits on reply channel 8 behind actor 1.
abbrev awaited : Mail types
awaited = record { actor_id = 2; dispatch = record { kind = 0; msg = 1; reply = some 8 } }

abbrev waiting : Worker types
waiting = record worker { scheduler = enqueue awaited (enqueue (asks 1 4) new) }

waiting-Oldest : Oldest 2 awaited waiting.scheduler
unfolding enqueue new pending insert get
waiting-Oldest = (refl, ([], refl))

run-Answered_example : Answered counters 8 (run counters (λ l. l) sends waiting shared_env).0
unfolding enqueue new get shuts
run-Answered_example =
    run-Answered counters counters-Calm 2 8 awaited refl (λ l. l) (7 ∷ []) 1 [] 7 0 refl
      (omega arith) sends waiting shared_env (λ e h. h, (λ e h. h, (λ e h. h, (λ e h. h, tt))))
      (λ e h. h, (λ e h. h, (λ e h. h, (λ e h. h, tt)))) (refl, refl, refl) shared_env-Held
      (enqueue-Valid awaited (enqueue (asks 1 4) new) (enqueue-Valid (asks 1 4) new new-Valid)) refl
      waiting-Oldest (omega arith)

-- Two workers, a counter that another thread spawns on the first, and a message for it.
abbrev first : Addr types
first = record { actor_id = 1; tx = 10; kind = 0 }

abbrev two : Runtime types
two = record { handles = new_worker 10 0 ∷ new_worker 11 1 ∷ [] }

abbrev begun : Env types
begun = (with_threads 10 2 env).0

abbrev spawned : Runtime types
spawned = record {
  handles = control (spawn_actor 1 (cell 30) 1) (new_worker 10 0) ∷ new_worker 11 1 ∷ [];
}

two-Reach : Reach counters (λ l. l) 10 2 two begun
unfolding with_threads
two-Reach = starts env two refl

abbrev after_spawn : Env types
after_spawn = (spawn counters 30 two begun).0

spawn-two : spawn counters 30 two begun ≡ (after_spawn, returned (spawned, first))
unfolding exec spawn pick_worker allocate_id with_threads
spawn-two = refl

spawned-Reach : Reach counters (λ l. l) 10 2 spawned (do_send first 3 after_spawn).0
spawned-Reach =
    later (later two-Reach (spawns two spawned begun after_spawn 30 first spawn-two))
      (posts spawned after_spawn first 3)

Reach-goes_on_example :
    Sound (range 10 2) 2 spawned (do_send first 3 after_spawn).0
    × Runs 10 0 false
        (iteration counters
          (λ l. l)
          []
          (control (spawn_actor 1 (cell 30) 1) (new_worker 10 0))
          (do_send first 3 after_spawn).0).1
unfolding control new_worker
Reach-goes_on_example =
    Reach-goes_on counters (λ l. l) 10 2 0 [] spawned (do_send first 3 after_spawn).0
      (control (spawn_actor 1 (cell 30) 1) (new_worker 10 0)) counters-Calm (omega arith)
      spawned-Reach refl

-- Another spawn comes to the same worker behind it.
abbrev another : List (ControlMsg types)
another = spawn_actor 3 (cell 50) 3 ∷ []

spawn-Admitted_example :
    Admitted counters (λ l. l) [] another (do_send first 3 after_spawn).0 spawned first
unfolding ids has_shutdown
spawn-Admitted_example =
    spawn-Admitted counters (λ l. l) (range 10 2) 2 30 [] another two spawned begun after_spawn
      (do_send first 3 after_spawn).0 first (omega arith)
      (Reach-Alive counters (λ l. l) 10 2 two begun counters-Calm (omega arith) two-Reach) spawn-two
      (Reach-Alive counters (λ l. l) 10 2 spawned (do_send first 3 after_spawn).0 counters-Calm
        (omega arith) spawned-Reach).sound.shared
      refl refl
