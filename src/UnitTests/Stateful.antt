-- ===== src/UnitTests/Stateful.antt =====
-- src/stateful.rs: the tests of the state machine.
use actinium_actor.Prelude.{
  ℕ, zero, suc, ◌+◌, ◌≡◌, refl, Bool, true, false, Option, none, some, List, [], ◌∷◌, ◌++◌, ◌==◌,
  length, get_elem?,
}
use actinium_actor.Outcome.{Outcome, returned, panicked, ◌>>=◌}
use actinium_actor.Text.{Text, text, same, show, digits}
use actinium_actor.StateMachine.{
  StateHandler, StateMachine, new, handle, on_started, on_stopped, current_state, current_index,
  into_inner,
}
use actinium_actor.UnitTests.{assert}

data TestState : Type 0 where
  init process validate : TestState

-- `{:?}`
abbrev debug : TestState → Text
debug init = text "Init"
debug process = text "Process"
debug validate = text "Validate"

record TestActor : Type 0 where
  log : List Text

record TestMsg : Type 0 where
  text : Text

-- The context is not used.
unfoldable handle_in_state :
    ℕ → TestState → TestMsg → TestActor → Unit {0} → Outcome (TestActor × Text × Unit {0})
handle_in_state idx state msg actor ctx =
    let entry = debug state ++ text "(" ++ show idx ++ text "): " ++ msg.text in
    returned (record { log = actor.log ++ entry ∷ [] }, entry, ctx)

unfoldable test_actor : StateHandler TestActor TestMsg TestState Text (Unit {0})
unfolding handle_in_state
test_actor = record {
  initial_state = init;
  state_sequence = init ∷ process ∷ validate ∷ [];
  handle_in_state = handle_in_state;
  started = λ actor ctx. returned (actor, ctx);
  stopped = λ actor ctx. returned (actor, ctx);
}

abbrev Machine : Type 0
Machine = StateMachine TestActor TestState

unfoldable new_machine : Outcome Machine
unfolding test_actor
new_machine = new test_actor (record { log = [] })

unfoldable send : Text → Machine → Outcome (Machine × Text)
unfolding test_actor
send t sm = do
  (sm', result, _) ← handle test_actor (record { text = t }) sm tt
  returned (sm', result)

abbrev is_in : TestState → Option TestState → Bool
is_in init (some init) = true
is_in process (some process) = true
is_in validate (some validate) = true
is_in _ _ = false

unfoldable starts_at_initial_state : Outcome (Unit {0})
unfolding new_machine
starts_at_initial_state = do
  sm ← new_machine
  _ ← assert (current_index sm == 0)
  assert (is_in init (current_state sm))

unfoldable cycles_through_states : Outcome (Unit {0})
unfolding new_machine send
cycles_through_states = do
  sm ← new_machine
  _ ← assert (is_in init (current_state sm))
  (sm1, first) ← send (text "first") sm
  _ ← assert (same first (text "Init(0): first"))
  _ ← assert (is_in process (current_state sm1))
  (sm2, second) ← send (text "second") sm1
  _ ← assert (same second (text "Process(1): second"))
  _ ← assert (is_in validate (current_state sm2))
  (sm3, third) ← send (text "third") sm2
  _ ← assert (same third (text "Validate(2): third"))
  assert (is_in init (current_state sm3))

-- The messages "msg0", "msg1" and so on, `n` of them from `i`.
unfoldable send_numbered : ℕ → ℕ → Machine → Outcome Machine
unfolding send
send_numbered i zero sm = returned sm
send_numbered i (suc n) sm = do
  (sm', _) ← send (text "msg" ++ show i) sm
  send_numbered (i + 1) n sm'

unfoldable cycles_multiple_times : Outcome (Unit {0})
unfolding new_machine send_numbered
cycles_multiple_times = do
  sm ← new_machine
  sm' ← send_numbered 0 6 sm
  _ ← assert (current_index sm' == 0)
  assert (is_in init (current_state sm'))

-- An index out of range panics.
abbrev entry_is : Option Text → Text → Outcome (Unit {0})
entry_is none t = panicked "index out of bounds"
entry_is (some entry) t = assert (same entry t)

unfoldable log_records_all_transitions : Outcome (Unit {0})
unfolding new_machine send
log_records_all_transitions = do
  sm ← new_machine
  (sm1, _) ← send (text "a") sm
  (sm2, _) ← send (text "b") sm1
  (sm3, _) ← send (text "c") sm2
  _ ← assert (length sm3.inner.log == 3)
  _ ← entry_is (get_elem? sm3.inner.log 0) (text "Init(0): a")
  _ ← entry_is (get_elem? sm3.inner.log 1) (text "Process(1): b")
  entry_is (get_elem? sm3.inner.log 2) (text "Validate(2): c")

abbrev is_empty : List Text → Bool
is_empty [] = true
is_empty (t ∷ ts) = false

unfoldable into_inner_returns_actor : Outcome (Unit {0})
unfolding new_machine
into_inner_returns_actor = do sm ← new_machine; assert (is_empty (into_inner sm).log)

data S : Type 0 where
  a : S

-- The shared flags of `lifecycle_hooks_delegated`, in the place of the context.
record Flags : Type 0 where
  started : Bool
  stopped : Bool

unfoldable lifecycle_actor : StateHandler (Unit {0}) (Unit {0}) S (Unit {0}) Flags
lifecycle_actor = record {
  initial_state = S.a;
  state_sequence = S.a ∷ [];
  handle_in_state = λ idx state msg actor flags. returned (actor, tt, flags);
  started = λ actor flags. returned (actor, record flags { started = true });
  stopped = λ actor flags. returned (actor, record flags { stopped = true });
}

unfoldable lifecycle_hooks_delegated : Outcome (Unit {0})
unfolding lifecycle_actor
lifecycle_hooks_delegated = do
  sm ← new lifecycle_actor tt
  (sm1, flags) ← on_started lifecycle_actor sm (record { started = false; stopped = false })
  _ ← assert flags.started
  (_, flags') ← on_stopped lifecycle_actor sm1 flags
  assert flags'.stopped

unfoldable empty_actor : StateHandler (Unit {0}) (Unit {0}) S (Unit {0}) (Unit {0})
empty_actor = record {
  initial_state = S.a;
  state_sequence = [];
  handle_in_state = λ idx state msg actor ctx. returned (actor, tt, ctx);
  started = λ actor ctx. returned (actor, ctx);
  stopped = λ actor ctx. returned (actor, ctx);
}

unfoldable empty_state_sequence_panics : Outcome (StateMachine (Unit {0}) S)
unfolding empty_actor
empty_state_sequence_panics = new empty_actor tt

-- No assertion of the tests fails, and the last one panics as expected.
tests_pass :
    (starts_at_initial_state ≡ returned tt)
    × (cycles_through_states ≡ returned tt)
    × (cycles_multiple_times ≡ returned tt)
    × (log_records_all_transitions ≡ returned tt)
    × (into_inner_returns_actor ≡ returned tt)
    × (lifecycle_hooks_delegated ≡ returned tt)
    × (empty_state_sequence_panics ≡ panicked "state sequence must not be empty")
unfolding starts_at_initial_state cycles_through_states cycles_multiple_times
    log_records_all_transitions into_inner_returns_actor lifecycle_hooks_delegated
    empty_state_sequence_panics new_machine send_numbered send test_actor lifecycle_actor
    empty_actor handle_in_state new handle on_started on_stopped current_state current_index
    into_inner show digits
tests_pass = (refl, refl, refl, refl, refl, refl, refl)
