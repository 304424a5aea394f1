-- ===== src/Supervisor/Limit.antt =====
-- How often a child is restarted, under either strategy.
use Prim.Native.Nat.{min}
use actinium_actor.Prelude.{
  ℕ, zero, suc, ◌-◌, ◌≤◌, ◌<◌, ◌≡◌, refl, sym, ap, ◌∙◌, subst, some, List, [], ◌∷◌, length, set,
  get_elem?, leb, ◌==◌, arith, inl, inr, Bool-cases, length-set, ==_refl,
}
use actinium_actor.HashMap.{remove}
use actinium_actor.HashMap.Laws.{get-insert}
use actinium_actor.Outcome.{Outcome, returned, Returns, ◌>>=◌, Returns->>=}
use actinium_actor.Supervisor.{
  one_for_one, all_for_one, ChildFactory, Supervisor, position, restart_count, restart_one,
  restart_all, give_up, handle_failure, apply_strategy,
}
use actinium_actor.Supervisor.Restart.{
  length-spawned, Fits, replaced, restart_one-replaced, found_factory, restart_all_lem, position-lt,
  restart_all-Fits,
}

position-set :
    (xs : List ℕ) (i x : ℕ) → i < length xs → (j : ℕ) × (position x (set xs i x) ≡ some j)
position-set [] i x h = absurd (omega arith)
position-set (y ∷ ys) zero x h = (0, ground (arith, ==_refl x))
position-set (y ∷ ys) (suc i) x h = elim (Bool-cases (y == x)) [
  | inl here ↦ (0, rw here)
  | inr there ↦ let (j, e) = position-set ys i x (omega arith) in (suc j, rw (there, e))
]

-- Every element satisfies `P`.
abbrev pub Every {ℓ} : {A : Type ℓ} → (A → Type 0) → List A → Type 0
Every P [] = Unit {0}
Every P (x ∷ xs) = P x × Every P xs

module _ {ℓ} {C : Type ℓ} where
  restart_count-replaced :
      (failed count i : ℕ) (f : ChildFactory C) (sup : Supervisor C) (ctx : C)
      → restart_count (replaced failed count i f sup ctx).0 (f ctx).0 ≡ suc count
  unfolding restart_count
  restart_count-replaced failed count i f sup ctx =
      ground (arith, get-insert (f ctx).0 (suc count) (remove failed sup.restart_counts) (f ctx).0)

  -- Beyond its limit a child is dropped, under either strategy.
  pub handle_failure-over :
      (failed : ℕ) (sup : Supervisor C) (ctx : C)
      → sup.max_restarts ≤ restart_count sup failed
      → handle_failure failed sup ctx ≡ returned (give_up failed sup, [], ctx)
  unfolding handle_failure
  handle_failure-over failed sup ctx h = ground arith

  pub handle_failure-within :
      (failed : ℕ) (sup : Supervisor C) (ctx : C)
      → restart_count sup failed < sup.max_restarts
      → handle_failure failed sup ctx
        ≡ apply_strategy sup.strategy failed (restart_count sup failed) sup ctx
  unfolding handle_failure
  handle_failure-within failed sup ctx h = ground arith

  -- `n` failures in a row of one child, each of the identifier that the last restart returned,
  -- until it is not restarted any more. The result lists the identifiers of the restarts.
  fail_again :
      (ℕ → Supervisor C → C → Outcome (List ℕ × Supervisor C × C))
      → Supervisor C × List ℕ × C
      → Outcome (List ℕ × Supervisor C × C)
  fail_again next (sup, [], ctx) = returned ([], sup, ctx)
  fail_again next (sup, id ∷ _, ctx) = do
    (ids, sup', ctx') ← next id sup ctx
    returned (id ∷ ids, sup', ctx')

  unfoldable pub fail_repeatedly : ℕ → ℕ → Supervisor C → C → Outcome (List ℕ × Supervisor C × C)
  unfolding fail_again
  fail_repeatedly zero id sup ctx = returned ([], sup, ctx)
  fail_repeatedly (suc n) id sup ctx = handle_failure id sup ctx >>= fail_again (fail_repeatedly n)

  pub apply-one :
      (sup : Supervisor C) (failed count : ℕ) (ctx : C)
      → sup.strategy ≡ one_for_one
      → apply_strategy sup.strategy failed count sup ctx ≡ restart_one failed count sup ctx
  unfolding apply_strategy
  apply-one sup failed count ctx e =
      subst (λ t. apply_strategy t failed count sup ctx ≡ restart_one failed count sup ctx) (sym e)
        refl

  pub handle_failure-one :
      (id i : ℕ) (f : ChildFactory C) (sup : Supervisor C) (ctx : C)
      → sup.strategy ≡ one_for_one
      → position id sup.child_ids ≡ some i
      → get_elem? sup.child_factories i ≡ some f
      → restart_count sup id < sup.max_restarts
      → handle_failure id sup ctx ≡ returned (replaced id (restart_count sup id) i f sup ctx)
  handle_failure-one id i f sup ctx st e found more =
      handle_failure-within id sup ctx more
      ∙ apply-one sup id (restart_count sup id) ctx st
      ∙ restart_one-replaced id (restart_count sup id) sup ctx i f e found

  -- Under `OneForOne`, where every child has a factory: of `n` failures in a row of one child, as many
  -- are answered by a restart as its count leaves to the limit.
  pub one_for_one_limit :
      (n id i : ℕ) (sup : Supervisor C) (ctx : C)
      → sup.strategy ≡ one_for_one
      → Fits sup
      → position id sup.child_ids ≡ some i
      → Returns
          (fail_repeatedly n id sup ctx)
          (λ r. length r.0 ≡ min n (sup.max_restarts - restart_count sup id))
  unfolding fail_repeatedly
  one_for_one_limit zero id i sup ctx st fits e = omega arith
  one_for_one_limit (suc n) id i sup ctx st fits e =
      elim (Bool-cases (leb sup.max_restarts (restart_count sup id))) [
        | inl over ↦ rw (handle_failure-over id sup ctx (ground arith)) (ground arith)
        | inr more ↦
            let (f, found) = found_factory id sup i fits e in
            let room : restart_count sup id < sup.max_restarts = ground arith in
            let after = replaced id (restart_count sup id) i f sup ctx in
            let (j, again) =
              position-set sup.child_ids i (f ctx).0 (position-lt id sup.child_ids i e) in
            rw (handle_failure-one id i f sup ctx st e found room) (
              Returns->>= (fail_repeatedly n (f ctx).0 after.0 (f ctx).1) _ _ _
                (one_for_one_limit n (f ctx).0 j after.0 (f ctx).1 st
                  (rw (length-set sup.child_ids i (f ctx).0) fits) again)
                (λ r h.
                  omega (arith, restart_count-replaced id (restart_count sup id) i f sup ctx)))
      ]

  -- Under `AllForOne` no count ever reaches the limit.
  pub record Endless (sup : Supervisor C) : Type ℓ where
    pub strategy : sup.strategy ≡ all_for_one
    pub fits : Fits sup
    pub below : (a : ℕ) → restart_count sup a < sup.max_restarts

  -- The failures of a list of children, each reported with the context that the last left behind:
  -- the identifiers that each restart returns.
  unfoldable pub failures : List ℕ → Supervisor C → C → Outcome (List (List ℕ))
  failures [] sup ctx = returned []
  failures (failed ∷ more) sup ctx = do
    (sup', ids, ctx') ← handle_failure failed sup ctx
    rest ← failures more sup' ctx'
    returned (ids ∷ rest)

  apply-all :
      (sup : Supervisor C) (failed count : ℕ) (ctx : C)
      → sup.strategy ≡ all_for_one
      → apply_strategy sup.strategy failed count sup ctx ≡ returned (restart_all sup ctx)
  unfolding apply_strategy
  apply-all sup failed count ctx e =
      subst (λ t. apply_strategy t failed count sup ctx ≡ returned (restart_all sup ctx)) (sym e)
        refl

  restart_all-Endless :
      (sup : Supervisor C) (ctx : C) → Endless sup → Endless (restart_all sup ctx).0
  restart_all-Endless sup ctx w =
      let r = restart_all_lem sup ctx w.fits in
      record {
        strategy = r.same_strategy ∙ w.strategy;
        fits = restart_all-Fits sup ctx w.fits;
        below = λ a. rw (r.counts a, r.limit) (omega (arith, w.below a));
      }

  -- Under `AllForOne`, with every count below the limit and a factory for every child: however many
  -- failures are reported, every one restarts as many children as there are factories.
  pub all_for_one_unlimited :
      (failed : List ℕ) (sup : Supervisor C) (ctx : C)
      → Endless sup
      → Returns (failures failed sup ctx) (λ r.
        (length r ≡ length failed) × Every (λ ids. length ids ≡ length sup.child_factories) r)
  unfolding failures
  all_for_one_unlimited [] sup ctx w = (refl, tt)
  all_for_one_unlimited (x ∷ failed) sup ctx w =
      let r = restart_all_lem sup ctx w.fits in
      rw (handle_failure-within x sup ctx (w.below x) ∙ apply-all sup x _ ctx w.strategy) (
        Returns->>= (failures failed (restart_all sup ctx).0 (restart_all sup ctx).2) _ _ _
          (all_for_one_unlimited failed (restart_all sup ctx).0 (restart_all sup ctx).2
            (restart_all-Endless sup ctx w))
          (λ rest h. (
            ap suc h.0,
            (
              rw (r.ids) (length-spawned sup.child_factories ctx),
              subst (λ fs. Every (λ ids. length ids ≡ length fs) rest) r.factories h.1,
            ),
          )))
