-- ===== src/StateMachine/Cycle.antt =====
-- The machine never leaves its sequence, and the n-th message is handled in state n modulo its length.
use native.Mathlib.Nat.{mod-add-mod}
use actinium_actor.Prelude.{
  ℕ, suc, ◌+◌, ◌%◌, ◌<◌, ◌≡◌, ◌≢◌, refl, sym, ap, ◌∙◌, Option, none, some, List, [], ◌∷◌, length,
  get_elem?, get_elem?-lt, arith,
}
use actinium_actor.Outcome.{Outcome, returned, panicked, Returns, ◌>>=◌}
use actinium_actor.StateMachine.{
  StateHandler, StateMachine, new, advance, handle, current_state, current_index, handle_at, new_on,
}

module _ {A M S R C : Type 0} (h : StateHandler A M S R C) where
  -- The current index is in the sequence, which is the handler's.
  pub record Valid (sm : StateMachine A S) : Type 0 where
    pub within : sm.current < length sm.states
    pub sequence : sm.states ≡ h.state_sequence

  -- `new` panics on an empty sequence.
  pub new-empty :
      (inner : A)
      → h.state_sequence ≡ []
      → new h inner ≡ panicked "state sequence must not be empty"
  unfolding new
  new-empty inner e = rw (e, new_on)

  new_on-Valid :
      (states : List S) (inner : A)
      → states ≡ h.state_sequence
      → 0 < length states
      → Returns
          (new_on h states inner)
          (λ sm. Valid sm × (current_index sm ≡ 0) × (sm.inner ≡ inner))
  unfolding new_on current_index
  new_on-Valid [] inner e lt = absurd (omega arith)
  new_on-Valid (s ∷ states) inner e lt = (record { within = omega arith; sequence = e }, refl, refl)

  -- On a sequence that is not empty, `new` returns a valid machine at index 0 around the actor.
  pub new-Valid :
      (inner : A)
      → 0 < length h.state_sequence
      → Returns (new h inner) (λ sm. Valid sm × (current_index sm ≡ 0) × (sm.inner ≡ inner))
  unfolding new
  new-Valid inner lt = new_on-Valid h.state_sequence inner refl lt

  new_on-starts :
      (s : S) (states more : List S) (inner : A)
      → states ≡ s ∷ more
      → s ≢ h.initial_state
      → Returns (new_on h states inner) (λ sm. current_state sm ≢ some h.initial_state)
  unfolding new_on current_state
  new_on-starts s [] more inner e n = cc
  new_on-starts s (x ∷ states) more inner e n = λ k. n (starts_at k)
    where
      starts_at : some x ≡ some h.initial_state → s ≡ h.initial_state
      starts_at k = cc

  -- Where the sequence begins with another state than `initial_state`, the new machine is not in
  -- `initial_state`.
  pub new-ignores_initial_state :
      (s : S) (more : List S) (inner : A)
      → h.state_sequence ≡ s ∷ more
      → s ≢ h.initial_state
      → Returns (new h inner) (λ sm. current_state sm ≢ some h.initial_state)
  unfolding new
  new-ignores_initial_state s more inner e n = new_on-starts s h.state_sequence more inner e n

  -- A message for a valid machine is handled in its current state, without a panic of its own.
  pub handle-current :
      (msg : M) (sm : StateMachine A S) (ctx : C)
      → Valid sm
      → (s : S) × (current_state sm ≡ some s)
        × (handle h msg sm ctx
            ≡ (h.handle_in_state sm.current s msg sm.inner ctx >>= λ r. returned (advance h sm r)))
  unfolding handle current_state
  handle-current msg sm ctx v =
      let (s, e) = get_elem?-lt sm.states sm.current v.within in (s, e, rw (e, handle_at))

  advance-Valid : (sm : StateMachine A S) (r : A × R × C) → Valid sm → Valid (advance h sm r).0
  unfolding advance
  advance-Valid sm r v = record { within = grind (arith, v.within); sequence = v.sequence }

  -- Several messages in a row.
  unfoldable pub handle_all :
      List M → StateMachine A S → C → Outcome (StateMachine A S × List R × C)
  handle_all [] sm ctx = returned (sm, [], ctx)
  handle_all (msg ∷ msgs) sm ctx = do
    (sm', r, ctx') ← handle h msg sm ctx
    (sm'', rs, ctx'') ← handle_all msgs sm' ctx'
    returned (sm'', r ∷ rs, ctx'')

  -- What the messages are meant to do: message `n` is handled in the state at `n` modulo the length of
  -- the sequence.
  unfoldable pub in_state : Option S → ℕ → M → A → C → Outcome (A × R × C)
  in_state none i msg inner ctx = panicked "index out of bounds"
  in_state (some s) i msg inner ctx = h.handle_in_state i s msg inner ctx

  unfoldable pub cycle : ℕ → List M → A → C → Outcome (A × List R × C)
  unfolding in_state
  cycle n [] inner ctx = returned (inner, [], ctx)
  cycle n (msg ∷ msgs) inner ctx = do
    let i = n % length h.state_sequence
    (inner', r, ctx') ← in_state (get_elem? h.state_sequence i) i msg inner ctx
    (inner'', rs, ctx'') ← cycle (n + 1) msgs inner' ctx'
    returned (inner'', r ∷ rs, ctx'')

  -- The machine after the messages, at the index where message `n` would be handled.
  abbrev pub at_index : ℕ → StateMachine A S → A × List R × C → StateMachine A S × List R × C
  at_index n sm (inner, rs, ctx) =
      (record sm { inner = inner; current = n % length sm.states }, rs, ctx)

  abbrev put_first :
      R → Outcome (StateMachine A S × List R × C) → Outcome (StateMachine A S × List R × C)
  put_first r m = m >>= λ x. returned (x.0, r ∷ x.1, x.2)

  cycle_step :
      (r : R) (n : ℕ) (sm sm' : StateMachine A S) (o : Outcome (A × List R × C))
      → sm'.states ≡ sm.states
      → put_first r (o >>= λ x. returned (at_index n sm' x))
        ≡ ((o >>= λ x. returned (x.0, r ∷ x.1, x.2)) >>= λ x. returned (at_index n sm x))
  cycle_step r n sm sm' (panicked m) e = refl
  cycle_step r n sm sm' (returned x) e = rw e

  -- One message, where the rest of the messages follow the cycle.
  handle_one :
      (n : ℕ) (msgs : List M) (sm : StateMachine A S) (o : Outcome (A × R × C))
      → ((x : A × R × C)
          → handle_all msgs (advance h sm x).0 x.2 ≡ (
              cycle (n + 1) msgs x.0 x.2 >>= λ y.
              returned (at_index (n + suc (length msgs)) (advance h sm x).0 y)))
      → ((o >>= λ x. returned (advance h sm x)) >>= λ y. put_first y.1 (handle_all msgs y.0 y.2))
        ≡ ((o >>= λ x. cycle (n + 1) msgs x.0 x.2 >>= λ y. returned (y.0, x.1 ∷ y.1, y.2)) >>= λ x.
            returned (at_index (n + suc (length msgs)) sm x))
  unfolding advance
  handle_one n msgs sm (panicked m) hyp = refl
  handle_one n msgs sm (returned (inner, r, ctx)) hyp =
      ap (put_first r) (hyp (inner, r, ctx))
      ∙ cycle_step r (n + suc (length msgs)) sm (advance h sm (inner, r, ctx)).0
          (cycle (n + 1) msgs inner ctx) refl

  one_more : (n k : ℕ) → n + suc k ≡ n + 1 + k
  one_more n k = omega arith

  in_state-current :
      (i : ℕ) (s : S) (msg : M) (sm : StateMachine A S) (ctx : C)
      → Valid sm
      → sm.current ≡ i
      → current_state sm ≡ some s
      → in_state (get_elem? h.state_sequence i) i msg sm.inner ctx
        ≡ h.handle_in_state sm.current s msg sm.inner ctx
  unfolding in_state current_state
  in_state-current i s msg sm ctx v e at = rw (sym v.sequence, sym e, at)

  advance-current :
      (n : ℕ) (sm : StateMachine A S) (r : A × R × C)
      → Valid sm
      → sm.current ≡ n % length h.state_sequence
      → (advance h sm r).0.current ≡ (n + 1) % length h.state_sequence
  unfolding advance
  advance-current n sm r v e = rw (v.sequence, e, mod-add-mod n (length h.state_sequence) 1)

  -- A valid machine at the index of message `n` handles any messages as the cycle has it, panics
  -- included, and ends at the index of the message that would come next.
  pub handle_all-cycle :
      (msgs : List M) (n : ℕ) (sm : StateMachine A S) (ctx : C)
      → Valid sm
      → sm.current ≡ n % length h.state_sequence
      → handle_all msgs sm ctx
        ≡ (cycle n msgs sm.inner ctx >>= λ x. returned (at_index (n + length msgs) sm x))
  unfolding handle_all cycle advance
  handle_all-cycle [] n sm ctx v e = ap (λ c. returned (record sm { current = c }, [], ctx)) stays
    where
      plus : n + 0 ≡ n
      plus = omega arith

      stays : sm.current ≡ (n + 0) % length sm.states
      stays = rw (v.sequence, e, plus)
  handle_all-cycle (msg ∷ msgs) n sm ctx v e =
      let (s, at, step) = handle-current msg sm ctx v in
      rw (step, in_state-current (n % length h.state_sequence) s msg sm ctx v e at)
        (handle_one n msgs sm (h.handle_in_state sm.current s msg sm.inner ctx) (λ x.
          let next = advance-Valid sm x v in
          rw (one_more n (length msgs)) (
            handle_all-cycle msgs (n + 1) (advance h sm x).0 x.2 next
              (advance-current n sm x v e))))
