-- ===== src/Examples/Scheduling.antt =====
-- src/scheduler.rs: two actors, 1 and 2, with messages that carry a number.
use actinium_actor.Prelude.{
  ℕ, ◌≡◌, refl, Bool, true, false, List, [], ◌∷◌, ◌++◌, contains, Distinct, arith,
}
use actinium_actor.Envelope.{Envelope}
use actinium_actor.HashMap.{get, insert}
use actinium_actor.Scheduler.{
  Scheduler, new, enqueue, pending, turn, next_ready, has_pending, dequeue,
}
use actinium_actor.Scheduler.Invariant.{Valid}
use actinium_actor.Scheduler.History.{
  Event, arrives, turns, removes, for_actor, arrivals, run, run-fifo, run-new-Valid,
}
use actinium_actor.Scheduler.Fairness.{ahead, ids, run-serves, run-no_overtaking}

abbrev to : ℕ → ℕ → Envelope ℕ
to actor_id dispatch = record { actor_id = actor_id; dispatch = dispatch }

-- No message stops its actor.
abbrev never : Envelope ℕ → Bool
never e = false

abbrev arrived : List (Event ℕ)
arrived = arrives (to 1 10) ∷ arrives (to 2 20) ∷ arrives (to 1 11) ∷ []

abbrev waiting : Scheduler ℕ
waiting = (run never arrived new).0

abbrev later : List (Event ℕ)
later = turns ∷ arrives (to 1 12) ∷ turns ∷ removes 3 ∷ turns ∷ []

run-new-Valid_example : Valid waiting
run-new-Valid_example = run-new-Valid never arrived

run-fifo_example :
    for_actor 1 (run never later waiting).1 ++ pending (run never later waiting).0 1
    ≡ pending waiting 1 ++ for_actor 1 (arrivals later)
run-fifo_example =
    run-fifo never 1 later waiting (run-new-Valid never arrived) (λ e h. refl)
      (λ e. omega arith, tt)

run-serves_example : contains (ids (run never later waiting).1) 2 ≡ true
unfolding run enqueue new
run-serves_example =
    run-serves never 2 later waiting (run-new-Valid never arrived) refl (λ e. omega arith, tt)
      (omega arith)

run-no_overtaking_example :
    Distinct (ids (run never (turns ∷ []) waiting).1)
    × ((b : ℕ)
        → contains (ids (run never (turns ∷ []) waiting).1) b ≡ true
        → contains (ahead 2 waiting.ready_queue) b ≡ true)
unfolding run enqueue new turn next_ready has_pending get insert dequeue
run-no_overtaking_example =
    run-no_overtaking never 2 (turns ∷ []) waiting (run-new-Valid never arrived) refl tt refl
