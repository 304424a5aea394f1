-- ===== src/UnitTests/Scheduling.antt =====
-- src/scheduler.rs: the tests of the scheduler.
use actinium_actor.Prelude.{
  ℕ, zero, suc, ◌≡◌, refl, Bool, true, false, ◌&&◌, Option, none, some, List, [], ◌∷◌, ◌==◌,
}
use actinium_actor.HashMap.{get, insert, remove}
use actinium_actor.Outcome.{Outcome, returned, ◌>>=◌}
use actinium_actor.Envelope.{Envelope}
use actinium_actor.Scheduler.{
  Scheduler, new, enqueue, next_ready, dequeue, requeue_if_ready, remove_actor, has_pending,
}
use actinium_actor.UnitTests.{assert}

-- The closure of the tests does nothing.
unfoldable make_envelope : ℕ → Envelope (Unit {0})
make_envelope id = record { actor_id = id; dispatch = tt }

abbrev Tested : Type 0
Tested = Scheduler (Unit {0})

abbrev equals : Option ℕ → Option ℕ → Bool
equals none none = true
equals (some a) (some b) = a == b
equals _ _ = false

abbrev is_some : {A : Type 0} → Option A → Bool
is_some none = false
is_some (some x) = true

-- `assert_eq!(s.next_ready(), expected)`
unfoldable assert_next_ready : Option ℕ → Tested → Outcome Tested
assert_next_ready expected s = do
  let (s', id) = next_ready s
  _ ← assert (equals id expected)
  returned s'

-- `assert!(s.dequeue(id).is_some())`
unfoldable assert_dequeue : ℕ → Tested → Outcome Tested
assert_dequeue id s = do
  let (s', envelope) = dequeue id s
  _ ← assert (is_some envelope)
  returned s'

unfoldable enqueue_and_dequeue : Outcome (Unit {0})
enqueue_and_dequeue = do
  s1 ← assert_next_ready (some 1) (enqueue (make_envelope 1) (enqueue (make_envelope 1) new))
  s2 ← assert_dequeue 1 s1
  s3 ← assert_next_ready (some 1) (requeue_if_ready 1 s2)
  s4 ← assert_dequeue 1 s3
  s5 ← assert_next_ready none (requeue_if_ready 1 s4)
  returned tt

-- `s.dequeue(id)` whose result is dropped, and `s.requeue_if_ready(id)`
unfoldable serve : ℕ → Tested → Tested
serve id s = requeue_if_ready id (dequeue id s).0

unfoldable enqueue_each : List ℕ → Tested → Tested
enqueue_each [] s = s
enqueue_each (id ∷ ids) s = enqueue_each ids (enqueue (make_envelope id) s)

unfoldable round_robin_between_actors : Outcome (Unit {0})
round_robin_between_actors = do
  s1 ← assert_next_ready (some 1) (enqueue_each (1 ∷ 1 ∷ 1 ∷ 2 ∷ []) new)
  s2 ← assert_next_ready (some 2) (serve 1 s1)
  s3 ← assert_next_ready (some 1) (serve 2 s2)
  s4 ← assert_next_ready (some 1) (serve 1 s3)
  s5 ← assert_next_ready none (serve 1 s4)
  returned tt

-- The loop over `next_ready`; `none` if the fuel does not suffice.
unfoldable served_order : ℕ → Tested × Option ℕ → Option (List ℕ)
served_order fuel (s, none) = some []
served_order zero (s, some id) = none
served_order (suc fuel) (s, some id) = elim (served_order fuel (next_ready (serve id s))) [
  | none ↦ none
  | some order ↦ some (id ∷ order)
]

abbrev same_order : Option (List ℕ) → List ℕ → Bool
same_order none ids = false
same_order (some []) [] = true
same_order (some (x ∷ xs)) (y ∷ ys) = let rest = same_order (some xs) ys in x == y && rest
same_order (some _) _ = false

unfoldable round_robin_fairness_order : Outcome (Unit {0})
round_robin_fairness_order = assert (
    same_order (served_order 6 (next_ready (enqueue_each (1 ∷ 2 ∷ 3 ∷ 1 ∷ 2 ∷ 3 ∷ []) new)))
      (1 ∷ 2 ∷ 3 ∷ 1 ∷ 2 ∷ 3 ∷ []))

unfoldable remove_actor_cleans_up : Outcome (Unit {0})
remove_actor_cleans_up = do
  s1 ← assert_next_ready (some 2) (remove_actor 1 (enqueue_each (1 ∷ 2 ∷ []) new))
  s2 ← assert_next_ready none (serve 2 s1)
  returned tt

unfoldable duplicate_enqueue_only_adds_once : Outcome (Unit {0})
duplicate_enqueue_only_adds_once = do
  s1 ← assert_next_ready (some 1) (enqueue_each (1 ∷ 1 ∷ []) new)
  s2 ← assert_next_ready (some 1) (serve 1 s1)
  returned tt

-- No assertion of the tests fails.
tests_pass :
    (enqueue_and_dequeue ≡ returned tt)
    × (round_robin_between_actors ≡ returned tt)
    × (round_robin_fairness_order ≡ returned tt)
    × (remove_actor_cleans_up ≡ returned tt)
    × (duplicate_enqueue_only_adds_once ≡ returned tt)
unfolding enqueue_and_dequeue round_robin_between_actors round_robin_fairness_order
    remove_actor_cleans_up duplicate_enqueue_only_adds_once served_order enqueue_each serve
    assert_next_ready assert_dequeue next_ready enqueue new make_envelope has_pending get insert
    remove dequeue requeue_if_ready remove_actor
tests_pass = (refl, refl, refl, refl, refl)
