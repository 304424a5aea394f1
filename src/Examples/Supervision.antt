-- ===== src/Examples/Supervision.antt =====
-- src/supervisor.rs: factories that number the children they spawn; the context is the next number.
use actinium_actor.Prelude.{ℕ, suc, ◌+◌, ◌-◌, ◌≡◌, refl, set, [], ◌∷◌, length, arith}
use Prim.Native.Nat.{min}
use actinium_actor.HashMap.{get}
use actinium_actor.Outcome.{returned, Returns}
use actinium_actor.Supervisor.{
  Strategy, one_for_one, all_for_one, ChildFactory, Supervisor, restart_count, give_up,
  handle_failure,
}
use actinium_actor.Supervisor.Restart.{Fits, replaced, handle_failure-Fits}
use actinium_actor.Supervisor.Limit.{
  Every, fail_repeatedly, failures, one_for_one_limit, all_for_one_unlimited,
}
use actinium_actor.Supervisor.Isolation.{Isolated, one_for_one_isolates}
use actinium_actor.Supervisor.Shift.{dropped_child_shifts}

-- Children that tell by their number, from which factory they are.
abbrev hundreds : ChildFactory ℕ
hundreds n = (100 + n, suc n)

abbrev thousands : ChildFactory ℕ
thousands n = (1000 + n, suc n)

-- Child 101 has been restarted `n` times, child 1002 never.
abbrev supervising : Strategy → ℕ → Supervisor ℕ
supervising strategy n = record {
  strategy = strategy;
  max_restarts = 2;
  child_factories = hundreds ∷ thousands ∷ [];
  child_ids = 101 ∷ 1002 ∷ [];
  restart_counts = (101, n) ∷ [];
}

handle_failure-Fits_example :
    Returns (handle_failure 101 (supervising one_for_one 1) 3) (λ r. Fits r.0)
handle_failure-Fits_example = handle_failure-Fits 101 (supervising one_for_one 1) 3 (omega arith)

one_for_one_limit_example :
    Returns
      (fail_repeatedly 5 101 (supervising one_for_one 1) 3)
      (λ r. length r.0 ≡ min 5 (2 - restart_count (supervising one_for_one 1) 101))
one_for_one_limit_example =
    one_for_one_limit 5 101 0 (supervising one_for_one 1) 3 refl (omega arith) refl

all_for_one_unlimited_example :
    Returns
      (failures (101 ∷ 103 ∷ 1006 ∷ []) (supervising all_for_one 1) 3)
      (λ r. (length r ≡ 3) × Every (λ ids. length ids ≡ 2) r)
unfolding restart_count get
all_for_one_unlimited_example =
    all_for_one_unlimited (101 ∷ 103 ∷ 1006 ∷ []) (supervising all_for_one 1) 3
      (record { strategy = refl; fits = omega arith; below = λ a. ground arith })

one_for_one_isolates_example : Returns (handle_failure 101 (supervising one_for_one 1) 3) (λ r.
    (r.1 ≡ 103 ∷ [])
    × (r.0.child_ids ≡ set (101 ∷ 1002 ∷ []) 0 103)
    × (r.0.child_factories ≡ (supervising one_for_one 1).child_factories)
    × Isolated 101 103 (supervising one_for_one 1) r.0)
unfolding restart_count get
one_for_one_isolates_example =
    one_for_one_isolates 101 0 hundreds (supervising one_for_one 1) 3 refl (omega arith)
      (refl, (refl, tt)) refl refl (omega arith) refl

-- Child 1002 comes back as a child of the other factory.
dropped_child_shifts_example :
    (handle_failure 101 (supervising one_for_one 2) 3
      ≡ returned (give_up 101 (supervising one_for_one 2), [], 3))
    × (handle_failure 1002 (give_up 101 (supervising one_for_one 2)) 3
        ≡ returned (replaced 1002 0 0 hundreds (give_up 101 (supervising one_for_one 2)) 3))
unfolding restart_count get
dropped_child_shifts_example =
    dropped_child_shifts 101 1002 0 0 hundreds (supervising one_for_one 2) 3 refl (refl, (refl, tt))
      refl refl (omega arith) (omega arith) (omega arith) refl
