-- ===== src/StateMachine/Replies.antt =====
-- Handlers that only answer: the cycle of a machine around them is a list of replies.
use actinium_actor.Prelude.{
  ℕ, ◌+◌, ◌%◌, ◌<◌, ◌≡◌, refl, ap, ◌∙◌, some, List, [], ◌∷◌, length, get_elem?, arith,
}
use actinium_actor.Outcome.{returned}
use actinium_actor.StateMachine.{StateHandler, StateMachine}
use actinium_actor.StateMachine.Cycle.{
  Valid, handle_all, cycle, in_state, at_index, handle_all-cycle,
}

-- In state `i` of the sequence, which is `state_at i`, the handler answers `reply i` and changes
-- nothing.
pub record Answers {A M S R C : Type 0} (h : StateHandler A M S R C) : Type 0 where
  pub state_at : ℕ → S
  pub reply : ℕ → M → A → C → R
  pub states :
      (i : ℕ) → i < length h.state_sequence → get_elem? h.state_sequence i ≡ some (state_at i)
  pub answers :
      (i : ℕ) (msg : M) (inner : A) (ctx : C)
      → i < length h.state_sequence
      → h.handle_in_state i (state_at i) msg inner ctx
        ≡ returned (inner, reply i msg inner ctx, ctx)

first : (n : ℕ) → 0 < n → 0 ≡ 0 % n
first n lt = grind arith

zero_plus : (n : ℕ) → 0 + n ≡ n
zero_plus n = omega arith

module _ {A M S R C : Type 0} (h : StateHandler A M S R C) (a : Answers h) where
  unfoldable pub replies : ℕ → List M → A → C → List R
  replies n [] inner ctx = []
  replies n (msg ∷ msgs) inner ctx =
      a.reply (n % length h.state_sequence) msg inner ctx ∷ replies (n + 1) msgs inner ctx

  in_state-reply :
      (i : ℕ) (msg : M) (inner : A) (ctx : C)
      → i < length h.state_sequence
      → in_state h (get_elem? h.state_sequence i) i msg inner ctx
        ≡ returned (inner, a.reply i msg inner ctx, ctx)
  unfolding in_state
  in_state-reply i msg inner ctx lt = rw (a.states i lt) (a.answers i msg inner ctx lt)

  cycle-replies :
      (msgs : List M) (n : ℕ) (inner : A) (ctx : C)
      → 0 < length h.state_sequence
      → cycle h n msgs inner ctx ≡ returned (inner, replies n msgs inner ctx, ctx)
  unfolding cycle replies
  cycle-replies [] n inner ctx some_state = refl
  cycle-replies (msg ∷ msgs) n inner ctx some_state = rw (
    in_state-reply (n % length h.state_sequence) msg inner ctx (grind arith),
    cycle-replies msgs (n + 1) inner ctx some_state,
  )

  has_state : (sm : StateMachine A S) → Valid h sm → 0 < length h.state_sequence
  has_state sm v = rw (← v.sequence) (omega (arith, v.within))

  -- A machine at index 0 gives the replies in order, and stands where the next message is handled.
  pub handle_all-replies :
      (msgs : List M) (sm : StateMachine A S) (ctx : C)
      → Valid h sm
      → sm.current ≡ 0
      → handle_all h msgs sm ctx
        ≡ returned (at_index h (length msgs) sm (sm.inner, replies 0 msgs sm.inner ctx, ctx))
  handle_all-replies msgs sm ctx v e =
      handle_all-cycle h msgs 0 sm ctx v (e ∙ first (length h.state_sequence) (has_state sm v))
      ∙ rw (cycle-replies msgs 0 sm.inner ctx (has_state sm v)) (
          ap (λ n. returned (at_index h n sm (sm.inner, replies 0 msgs sm.inner ctx, ctx)))
            (zero_plus (length msgs)))
