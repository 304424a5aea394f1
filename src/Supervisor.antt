-- ===== src/Supervisor.antt =====
-- src/supervisor.rs: restart strategies over child factories.
-- A factory is the caller's code: a function of the context `C` that it may change, which returns
-- the identifier of the child that it spawned.
use actinium_actor.Prelude.{
  ℕ, suc, ◌+◌, ◌≡◌, Bool, Option, none, some, List, [], ◌∷◌, ◌++◌, length, set, get_elem?, without,
  if◌then◌else◌, leb, ltb, ◌==◌,
}
use actinium_actor.HashMap.{HashMap, get, insert, remove}
use actinium_actor.Outcome.{Outcome, returned, panicked}
pub mod Restart
pub mod Limit
pub mod Isolation
pub mod Shift

pub data Strategy : Type 0 where
  one_for_one all_for_one : Strategy

-- A factory that returns; a panic of it, as of the `started` of the child that it spawns, would unwind
-- the caller of the supervisor, and is left out.
abbrev pub ChildFactory {ℓ} : Type ℓ → Type ℓ
ChildFactory C = C → ℕ × C

pub record Supervisor {ℓ} (C : Type ℓ) : Type ℓ where
  pub strategy : Strategy
  pub max_restarts : ℕ
  pub child_factories : List (ChildFactory C)
  pub child_ids : List ℕ
  pub restart_counts : HashMap ℕ

-- `.iter().position(|id| *id == x)`
abbrev pub position : ℕ → List ℕ → Option ℕ
position x [] = none
position x (y ∷ ys) =
    let rest : Option ℕ = elim (position x ys) [ none ↦ none | some i ↦ some (suc i) ] in
    if y == x then some 0 else rest

-- `child_ids[i] = new_id`, or a push where there is no such place.
unfoldable pub assign_id : ℕ → ℕ → List ℕ → List ℕ
assign_id i new_id child_ids =
    if ltb i (length child_ids) then set child_ids i new_id else child_ids ++ new_id ∷ []

-- The second loop: every new child counts from 0.
unfoldable pub zero_counts : List ℕ → HashMap ℕ → HashMap ℕ
zero_counts [] m = m
zero_counts (id ∷ ids) m = zero_counts ids (insert id 0 m)

module _ {ℓ} {C : Type ℓ} where
  unfoldable pub new : Strategy → ℕ → Supervisor C
  new strategy max_restarts = record {
    strategy = strategy;
    max_restarts = max_restarts;
    child_factories = [];
    child_ids = [];
    restart_counts = [];
  }

  unfoldable pub register_child : ChildFactory C → Supervisor C → Supervisor C
  register_child factory sup = record sup { child_factories = sup.child_factories ++ factory ∷ [] }

  -- The loop of `start_all` over the factories that are left.
  unfoldable pub start_loop : List (ChildFactory C) → Supervisor C → C → Supervisor C × C
  start_loop [] sup ctx = (sup, ctx)
  start_loop (factory ∷ factories) sup ctx =
      let (id, ctx') = factory ctx in
      start_loop factories
        (record sup {
          child_ids = sup.child_ids ++ id ∷ [];
          restart_counts = insert id 0 sup.restart_counts;
        })
        ctx'

  unfoldable pub start_all : Supervisor C → C → Supervisor C × C
  unfolding start_loop
  start_all sup ctx = start_loop sup.child_factories sup ctx

  -- `.get(&id).copied().unwrap_or(0)`
  unfoldable pub restart_count : Supervisor C → ℕ → ℕ
  restart_count sup id = elim (get sup.restart_counts id) [ none ↦ 0 | some n ↦ n ]

  -- The call of the factory at the position of the failed child; an index out of range panics.
  unfoldable pub replace_child :
      ℕ → ℕ → ℕ → Option (ChildFactory C) → Supervisor C → C → Outcome (Supervisor C × List ℕ × C)
  replace_child failed_id count idx none sup ctx = panicked "index out of bounds"
  replace_child failed_id count idx (some factory) sup ctx =
      let (new_id, ctx') = factory ctx in
      returned (
        record sup {
          child_ids = set sup.child_ids idx new_id;
          restart_counts = insert new_id (suc count) (remove failed_id sup.restart_counts);
        },
        new_id ∷ [],
        ctx',
      )

  unfoldable pub restart_one : ℕ → ℕ → Supervisor C → C → Outcome (Supervisor C × List ℕ × C)
  unfolding replace_child
  restart_one failed_id count sup ctx = elim (position failed_id sup.child_ids) [
    | none ↦ returned (sup, [], ctx)
    | some idx ↦ replace_child failed_id count idx (get_elem? sup.child_factories idx) sup ctx
  ]

  -- The first loop of `restart_all`, from the factory at position `i`.
  unfoldable pub restart_loop :
      ℕ → List (ChildFactory C) → Supervisor C → List ℕ → C → Supervisor C × List ℕ × C
  restart_loop i [] sup new_ids ctx = (sup, new_ids, ctx)
  restart_loop i (factory ∷ factories) sup new_ids ctx =
      let (new_id, ctx') = factory ctx in
      restart_loop (suc i) factories
        (record sup {
          child_ids = assign_id i new_id sup.child_ids;
          restart_counts = insert new_id 0 sup.restart_counts;
        })
        (new_ids ++ new_id ∷ []) ctx'

  unfoldable pub restart_all : Supervisor C → C → Supervisor C × List ℕ × C
  unfolding restart_loop zero_counts
  restart_all sup ctx =
      let (sup', new_ids, ctx') = restart_loop 0 sup.child_factories sup [] ctx in
      (record sup' { restart_counts = zero_counts new_ids [] }, new_ids, ctx')

  unfoldable pub apply_strategy :
      Strategy → ℕ → ℕ → Supervisor C → C → Outcome (Supervisor C × List ℕ × C)
  unfolding restart_one restart_all
  apply_strategy one_for_one failed_id count sup ctx = restart_one failed_id count sup ctx
  apply_strategy all_for_one failed_id count sup ctx = returned (restart_all sup ctx)

  unfoldable pub give_up : ℕ → Supervisor C → Supervisor C
  give_up failed_id sup = record sup {
    child_ids = without failed_id sup.child_ids;
    restart_counts = remove failed_id sup.restart_counts;
  }

  unfoldable pub handle_failure : ℕ → Supervisor C → C → Outcome (Supervisor C × List ℕ × C)
  unfolding restart_count apply_strategy give_up
  handle_failure failed_id sup ctx =
      let count = restart_count sup failed_id in
      if leb sup.max_restarts count
      then returned (give_up failed_id sup, [], ctx)
      else apply_strategy sup.strategy failed_id count sup ctx

  -- The active children.
  abbrev pub children : Supervisor C → List ℕ
  children sup = sup.child_ids
