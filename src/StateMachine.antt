-- ===== src/StateMachine.antt =====
-- src/stateful.rs: an actor whose handler cycles through a sequence of states.
use Prim.Native.String.{String}
use actinium_actor.Prelude.{ℕ, suc, ◌+◌, ◌%◌, Option, none, some, List, [], ◌∷◌, length, get_elem?}
use actinium_actor.Outcome.{Outcome, returned, panicked, ◌>>=◌}
pub mod Cycle
pub mod Replies

-- The trait `StateHandler<M, S>` of an actor `A`, over a context `C`. `handle_in_state` is the user's
-- code: it may panic.
pub record StateHandler (A M S R C : Type 0) : Type 0 where
  pub initial_state : S
  pub state_sequence : List S
  pub handle_in_state : ℕ → S → M → A → C → Outcome (A × R × C)
  pub started : A → C → Outcome (A × C)
  pub stopped : A → C → Outcome (A × C)

pub record StateMachine (A S : Type 0) : Type 0 where
  pub inner : A
  pub current : ℕ
  pub states : List S

module _ {A M S R C : Type 0} (h : StateHandler A M S R C) where
  unfoldable pub new_on : List S → A → Outcome (StateMachine A S)
  new_on [] inner = panicked "state sequence must not be empty"
  new_on (s ∷ states) inner = returned (record { inner = inner; current = 0; states = s ∷ states })

  unfoldable pub new : A → Outcome (StateMachine A S)
  unfolding new_on
  new inner = new_on h.state_sequence inner

  unfoldable pub advance : StateMachine A S → A × R × C → StateMachine A S × R × C
  advance sm (inner, result, ctx) =
      (record sm { inner = inner; current = (sm.current + 1) % length sm.states }, result, ctx)

  handle_at : Option S → M → StateMachine A S → C → Outcome (StateMachine A S × R × C)
  unfolding advance
  handle_at none msg sm ctx = panicked "index out of bounds"
  handle_at (some state) msg sm ctx = do
    r ← h.handle_in_state sm.current state msg sm.inner ctx
    returned (advance sm r)

  -- `Handler::handle`: a panic of `handle_in_state` skips the advance.
  unfoldable pub handle : M → StateMachine A S → C → Outcome (StateMachine A S × R × C)
  unfolding handle_at
  handle msg sm ctx = handle_at (get_elem? sm.states sm.current) msg sm ctx

  unfoldable pub on_started : StateMachine A S → C → Outcome (StateMachine A S × C)
  on_started sm ctx = do
    (inner, ctx') ← h.started sm.inner ctx
    returned (record sm { inner = inner }, ctx')

  unfoldable pub on_stopped : StateMachine A S → C → Outcome (StateMachine A S × C)
  on_stopped sm ctx = do
    (inner, ctx') ← h.stopped sm.inner ctx
    returned (record sm { inner = inner }, ctx')

-- `none` where the source would index out of bounds.
unfoldable pub current_state : {A S : Type 0} → StateMachine A S → Option S
current_state sm = get_elem? sm.states sm.current

unfoldable pub current_index : {A S : Type 0} → StateMachine A S → ℕ
current_index sm = sm.current

unfoldable pub into_inner : {A S : Type 0} → StateMachine A S → A
into_inner sm = sm.inner
