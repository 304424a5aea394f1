-- ===== src/Supervisor/Restart.antt =====
-- What a restart does to the children, under either strategy.
use actinium_actor.Prelude.{
  ℕ, suc, ◌≤◌, ◌<◌, ◌≡◌, refl, sym, ap, ◌∙◌, none, some, List, [], ◌∷◌, ◌++◌, length, set,
  get_elem?, if◌then◌else◌, leb, arith, append_assoc, append-nil, length-append, length-set,
  contains, inl, inr, Bool-cases, Option-cases, get_elem?-lt, length-without-le,
}
use actinium_actor.HashMap.{get, insert, remove}
use actinium_actor.HashMap.Laws.{get-insert}
use actinium_actor.Outcome.{returned, Returns}
use actinium_actor.Supervisor.{
  Strategy, one_for_one, all_for_one, ChildFactory, Supervisor, position, start_loop, start_all,
  restart_count, restart_one, restart_loop, zero_counts, restart_all, handle_failure, assign_id,
  apply_strategy, replace_child,
}

-- The children that a list of factories spawns, called in order.
unfoldable pub spawned {ℓ} : {C : Type ℓ} → List (ChildFactory C) → C → List ℕ × C
spawned [] ctx = ([], ctx)
spawned (factory ∷ factories) ctx =
    let (id, ctx') = factory ctx in let (ids, ctx'') = spawned factories ctx' in (id ∷ ids, ctx'')

pub length-spawned {ℓ} :
    {C : Type ℓ} (fs : List (ChildFactory C)) (ctx : C) → length (spawned fs ctx).0 ≡ length fs
unfolding spawned
length-spawned [] ctx = refl
length-spawned (f ∷ fs) ctx = ap suc (length-spawned fs (f ctx).1)

set_middle : (xs ys : List ℕ) (y z : ℕ) → set (xs ++ y ∷ ys) (length xs) z ≡ (xs ++ z ∷ []) ++ ys
set_middle [] ys y z = refl
set_middle (x ∷ xs) ys y z = ap (◌∷◌ x) (set_middle xs ys y z)

pub position-lt : (x : ℕ) (xs : List ℕ) (i : ℕ) → position x xs ≡ some i → i < length xs
position-lt x [] i h = cc
position-lt x (y ∷ ys) i h = elim (Option-cases (position x ys)) [
  | inl e ↦ ground arith
  | inr (j, e) ↦ ground (arith, position-lt x ys j e)
]

tail_ids : List ℕ → List ℕ
tail_ids [] = []
tail_ids (x ∷ xs) = xs

length-tail_ids : (xs : List ℕ) {n : ℕ} → length xs ≤ suc n → length (tail_ids xs) ≤ n
unfolding tail_ids
length-tail_ids [] h = omega arith
length-tail_ids (x ∷ xs) h = omega arith

assign_id-middle :
    (xs ys : List ℕ) (z : ℕ) → assign_id (length xs) z (xs ++ ys) ≡ (xs ++ z ∷ []) ++ tail_ids ys
unfolding assign_id tail_ids
assign_id-middle xs [] z = rw (append-nil xs) (ground (arith, append-nil (xs ++ z ∷ [])))
assign_id-middle xs (y ∷ ys) z = ground (arith, length-append {0} xs (y ∷ ys), set_middle xs ys y z)

pub get-zero_counts :
    (ids : List ℕ) (m : List (ℕ × ℕ)) (a : ℕ)
    → get (zero_counts ids m) a ≡ (if contains ids a then some 0 else get m a)
unfolding zero_counts
get-zero_counts [] m a = refl
get-zero_counts (id ∷ ids) m a =
    ground (arith, get-zero_counts ids (insert id 0 m) a, get-insert id 0 m a)

module _ {ℓ} {C : Type ℓ} where
  start_loop_ids :
      (fs : List (ChildFactory C)) (sup : Supervisor C) (ctx : C)
      → ((start_loop fs sup ctx).0.child_ids ≡ sup.child_ids ++ (spawned fs ctx).0)
        × ((start_loop fs sup ctx).1 ≡ (spawned fs ctx).1)
  unfolding start_loop spawned
  start_loop_ids [] sup ctx = (sym (append-nil sup.child_ids), refl)
  start_loop_ids (f ∷ fs) sup ctx =
      let ih =
        start_loop_ids fs
          (record sup {
            child_ids = sup.child_ids ++ (f ctx).0 ∷ [];
            restart_counts = insert (f ctx).0 0 sup.restart_counts;
          })
          (f ctx).1 in
      (ih.0 ∙ append_assoc sup.child_ids ((f ctx).0 ∷ []) (spawned fs (f ctx).1).0, ih.1)

  restart_loop_ids :
      (fs : List (ChildFactory C)) (i : ℕ) (old done : List ℕ) (sup : Supervisor C) (ctx : C)
      → i ≡ length done
      → sup.child_ids ≡ done ++ old
      → length old ≤ length fs
      → let r = restart_loop i fs sup done ctx in
        (r.0.child_ids ≡ done ++ (spawned fs ctx).0)
        × (r.1 ≡ done ++ (spawned fs ctx).0)
        × (r.2 ≡ (spawned fs ctx).1)
  unfolding restart_loop spawned
  restart_loop_ids [] i [] done sup ctx e h le = (h, sym (append-nil done), refl)
  restart_loop_ids [] i (x ∷ old) done sup ctx e h le = absurd (omega arith)
  restart_loop_ids (f ∷ fs) i old done sup ctx e h le =
      let ih =
        restart_loop_ids fs (suc i) (tail_ids old) (done ++ (f ctx).0 ∷ [])
          (record sup {
            child_ids = assign_id i (f ctx).0 sup.child_ids;
            restart_counts = insert (f ctx).0 0 sup.restart_counts;
          })
          (f ctx).1 (omega (arith, length-append {0} done ((f ctx).0 ∷ [])))
          (rw (h, e) (assign_id-middle done old (f ctx).0)) (length-tail_ids old le) in
      let regroup = append_assoc done ((f ctx).0 ∷ []) (spawned fs (f ctx).1).0 in
      (ih.0 ∙ regroup, ih.1 ∙ regroup, ih.2)

  restart_loop-keeps :
      (fs : List (ChildFactory C)) (i : ℕ) (done : List ℕ) (sup : Supervisor C) (ctx : C)
      → let r = (restart_loop i fs sup done ctx).0 in
        (r.strategy ≡ sup.strategy)
        × (r.max_restarts ≡ sup.max_restarts)
        × (r.child_factories ≡ sup.child_factories)
  unfolding restart_loop
  restart_loop-keeps [] i done sup ctx = (refl, refl, refl)
  restart_loop-keeps (f ∷ fs) i done sup ctx = restart_loop-keeps fs (suc i) _ _ _

  -- Every child has a factory at its place.
  abbrev pub Fits : Supervisor C → Type 0
  Fits sup = length sup.child_ids ≤ length sup.child_factories

  -- `start_all` appends the children of the factories, in order.
  pub start_all-spawned :
      (sup : Supervisor C) (ctx : C)
      → ((start_all sup ctx).0.child_ids ≡ sup.child_ids ++ (spawned sup.child_factories ctx).0)
        × ((start_all sup ctx).1 ≡ (spawned sup.child_factories ctx).1)
  unfolding start_all
  start_all-spawned sup ctx = start_loop_ids sup.child_factories sup ctx

  pub record RestartedAll (sup : Supervisor C) (ctx : C) : Type ℓ where
    pub ids : (restart_all sup ctx).1 ≡ (spawned sup.child_factories ctx).0
    pub children : (restart_all sup ctx).0.child_ids ≡ (restart_all sup ctx).1
    pub context : (restart_all sup ctx).2 ≡ (spawned sup.child_factories ctx).1
    pub factories : (restart_all sup ctx).0.child_factories ≡ sup.child_factories
    pub counts : (a : ℕ) → restart_count (restart_all sup ctx).0 a ≡ 0
    pub same_strategy : (restart_all sup ctx).0.strategy ≡ sup.strategy
    pub limit : (restart_all sup ctx).0.max_restarts ≡ sup.max_restarts

  pub restart_all_lem : (sup : Supervisor C) (ctx : C) → Fits sup → RestartedAll sup ctx
  unfolding restart_all
  restart_all_lem sup ctx fits =
      let (c, i, x) =
        restart_loop_ids sup.child_factories 0 sup.child_ids [] sup ctx refl refl fits in
      let (st, mx, fa) = restart_loop-keeps sup.child_factories 0 [] sup ctx in
      record {
        ids = i;
        children = c ∙ sym i;
        context = x;
        factories = fa;
        counts = λ a.
            unfold restart_count get in
            ground (arith, get-zero_counts (restart_loop 0 sup.child_factories sup [] ctx).1 [] a);
        same_strategy = st;
        limit = mx;
      }

  -- The state and the context after the child at position `i` is replaced.
  abbrev pub replaced : ℕ → ℕ → ℕ → ChildFactory C → Supervisor C → C → Supervisor C × List ℕ × C
  replaced failed count i f sup ctx = (
    record sup {
      child_ids = set sup.child_ids i (f ctx).0;
      restart_counts = insert (f ctx).0 (suc count) (remove failed sup.restart_counts);
    },
    (f ctx).0 ∷ [],
    (f ctx).1,
  )

  pub restart_one-absent :
      (failed count : ℕ) (sup : Supervisor C) (ctx : C)
      → position failed sup.child_ids ≡ none
      → restart_one failed count sup ctx ≡ returned (sup, [], ctx)
  unfolding restart_one
  restart_one-absent failed count sup ctx e = rw (e, restart_one)

  pub restart_one-replaced :
      (failed count : ℕ) (sup : Supervisor C) (ctx : C) (i : ℕ) (f : ChildFactory C)
      → position failed sup.child_ids ≡ some i
      → get_elem? sup.child_factories i ≡ some f
      → restart_one failed count sup ctx ≡ returned (replaced failed count i f sup ctx)
  unfolding restart_one
  restart_one-replaced failed count sup ctx i f e found = rw (e, restart_one, found, replace_child)

  pub found_factory :
      (failed : ℕ) (sup : Supervisor C) (i : ℕ)
      → Fits sup
      → position failed sup.child_ids ≡ some i
      → (f : ChildFactory C) × (get_elem? sup.child_factories i ≡ some f)
  found_factory failed sup i fits e =
      get_elem?-lt sup.child_factories i (omega (arith, position-lt failed sup.child_ids i e))

  restart_one-Fits :
      (failed count : ℕ) (sup : Supervisor C) (ctx : C)
      → Fits sup
      → Returns (restart_one failed count sup ctx) (λ r. Fits r.0)
  restart_one-Fits failed count sup ctx fits = elim (Option-cases (position failed sup.child_ids)) [
    | inl e ↦ rw (restart_one-absent failed count sup ctx e) fits
    | inr (i, e) ↦
        let (f, found) = found_factory failed sup i fits e in
        rw (restart_one-replaced failed count sup ctx i f e found)
          (rw (length-set sup.child_ids i (f ctx).0) fits)
  ]

  pub restart_all-Fits : (sup : Supervisor C) (ctx : C) → Fits sup → Fits (restart_all sup ctx).0
  restart_all-Fits sup ctx fits =
      let r = restart_all_lem sup ctx fits in
      rw (r.children, r.ids, r.factories) (omega (arith, length-spawned sup.child_factories ctx))

  apply-Fits :
      (st : Strategy) (failed count : ℕ) (sup : Supervisor C) (ctx : C)
      → Fits sup
      → Returns (apply_strategy st failed count sup ctx) (λ r. Fits r.0)
  unfolding apply_strategy
  apply-Fits one_for_one failed count sup ctx fits = restart_one-Fits failed count sup ctx fits
  apply-Fits all_for_one failed count sup ctx fits = restart_all-Fits sup ctx fits

  -- Where every child has a factory, `handle_failure` does not panic, whoever fails, and every child
  -- still has one.
  pub handle_failure-Fits :
      (failed : ℕ) (sup : Supervisor C) (ctx : C)
      → Fits sup
      → Returns (handle_failure failed sup ctx) (λ r. Fits r.0)
  unfolding handle_failure
  handle_failure-Fits failed sup ctx fits =
      elim (Bool-cases (leb sup.max_restarts (restart_count sup failed))) [
        | inl over ↦ rw over (omega (arith, length-without-le failed sup.child_ids))
        | inr more ↦ rw more (apply-Fits sup.strategy failed _ sup ctx fits)
      ]
