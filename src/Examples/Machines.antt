-- ===== src/Examples/Machines.antt =====
-- src/stateful.rs: a machine of three states that adds a message in state `add`, multiplies by it in
-- state `multiply`, and forgets its number in state `reset`.
use actinium_actor.Prelude.{ℕ, ◌+◌, ◌*◌, ◌≡◌, refl, List, [], ◌∷◌, arith}
use actinium_actor.Outcome.{Outcome, returned, ◌>>=◌}
use actinium_actor.StateMachine.{StateHandler, StateMachine}
use actinium_actor.StateMachine.Cycle.{handle_all, cycle, at_index, handle_all-cycle}

data State : Type 0 where
  add multiply reset : State

abbrev in_state : ℕ → State → ℕ → ℕ → Unit {0} → Outcome (ℕ × ℕ × Unit {0})
in_state i add m n ctx = returned (n + m, i, ctx)
in_state i multiply m n ctx = returned (n * m, i, ctx)
in_state i reset m n ctx = returned (0, i, ctx)

abbrev calculator : StateHandler ℕ ℕ State ℕ (Unit {0})
calculator = record {
  initial_state = reset;
  state_sequence = add ∷ multiply ∷ reset ∷ [];
  handle_in_state = in_state;
  started = λ n ctx. returned (n, ctx);
  stopped = λ n ctx. returned (n, ctx);
}

abbrev machine : ℕ → StateMachine ℕ State
machine current = record { inner = 4; current = current; states = add ∷ multiply ∷ reset ∷ [] }

abbrev messages : List ℕ
messages = 3 ∷ 5 ∷ 7 ∷ 9 ∷ []

-- From state 1: four messages, in the states 1, 2, 0 and 1 again.
handle_all-cycle_example :
    handle_all calculator messages (machine 1) tt
    ≡ (cycle calculator 1 messages 4 tt >>= λ x. returned (at_index calculator 5 (machine 1) x))
handle_all-cycle_example =
    handle_all-cycle calculator messages 1 (machine 1) tt
      (record { within = omega arith; sequence = refl }) refl
