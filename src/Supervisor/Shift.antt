-- ===== src/Supervisor/Shift.antt =====
-- What dropping a child does to the children after it: identifiers move up, factories do not.
use actinium_actor.Prelude.{
  ℕ, zero, suc, ◌≤◌, ◌<◌, ◌≡◌, refl, ap, ◌∙◌, true, false, some, List, [], ◌∷◌, get_elem?, ◌==◌,
  arith, without, without-absent, inl, inr, Option-cases, Distinct, ◌≢◌, ==_iff,
}
use actinium_actor.HashMap.Laws.{get-remove}
use actinium_actor.Outcome.{returned}
use actinium_actor.Supervisor.{
  one_for_one, ChildFactory, Supervisor, position, restart_count, give_up, handle_failure,
}
use actinium_actor.Supervisor.Restart.{replaced}
use actinium_actor.Supervisor.Limit.{handle_failure-over, handle_failure-one}

pub position-suc :
    (b x : ℕ) (xs : List ℕ) (j : ℕ)
    → position b (x ∷ xs) ≡ some (suc j)
    → ((x == b) ≡ false) × (position b xs ≡ some j)
position-suc b x xs j h = elim (Option-cases (position b xs)) [
  | inl e ↦ ground arith
  | inr (k, e) ↦ ground arith
]

pub position-zero : (b x : ℕ) (xs : List ℕ) → position b (x ∷ xs) ≡ some 0 → (x == b) ≡ true
position-zero b x xs h = elim (Option-cases (position b xs)) [
  | inl e ↦ ground arith
  | inr (k, e) ↦ ground arith
]

position-suc_intro :
    (b x : ℕ) (xs : List ℕ) (j : ℕ)
    → (x == b) ≡ false
    → position b xs ≡ some j
    → position b (x ∷ xs) ≡ some (suc j)
position-suc_intro b x xs j h e = rw (h, e)

-- The identifiers after a dropped one move one place up.
position-without :
    (a b : ℕ) (xs : List ℕ) (i j : ℕ)
    → Distinct xs
    → position a xs ≡ some i
    → position b xs ≡ some (suc j)
    → i ≤ j
    → position b (without a xs) ≡ some j
position-without a b [] i j d p q le = cc
position-without a b (x ∷ xs) zero j d p q le =
    let here = position-zero a x xs p in
    rw here (rw (without-absent a xs (rw (← (==_iff x a).0 here) d.0)) (position-suc b x xs j q).1)
position-without a b (x ∷ xs) (suc i) zero d p q le = absurd (omega arith)
position-without a b (x ∷ xs) (suc i) (suc j) d p q le =
    let (na, p') = position-suc a x xs i p in
    let (nb, q') = position-suc b x xs (suc j) q in
    rw na (
      position-suc_intro b x (without a xs) j nb
        (position-without a b xs i j d.1 p' q' (omega arith)))

module _ {ℓ} {C : Type ℓ} where
  give_up-count :
      (a : ℕ) (sup : Supervisor C) (b : ℕ)
      → a ≢ b
      → restart_count (give_up a sup) b ≡ restart_count sup b
  unfolding restart_count give_up
  give_up-count a sup b h = ground (arith, get-remove a sup.restart_counts b)

  give_up-children :
      (a : ℕ) (sup : Supervisor C) → (give_up a sup).child_ids ≡ without a sup.child_ids
  unfolding give_up
  give_up-children a sup = refl

  give_up-keeps :
      (a : ℕ) (sup : Supervisor C)
      → ((give_up a sup).strategy ≡ sup.strategy)
        × ((give_up a sup).max_restarts ≡ sup.max_restarts)
        × ((give_up a sup).child_factories ≡ sup.child_factories)
  unfolding give_up
  give_up-keeps a sup = (refl, refl, refl)

  -- Under `OneForOne`, once the child `a` at position `i` has used up its restarts and failed again,
  -- a child `b` behind it, at position `j + 1`, is restarted by the factory at position `j`.
  pub dropped_child_shifts :
      (a b i j : ℕ) (f : ChildFactory C) (sup : Supervisor C) (ctx : C)
      → sup.strategy ≡ one_for_one
      → Distinct sup.child_ids
      → position a sup.child_ids ≡ some i
      → position b sup.child_ids ≡ some (suc j)
      → i ≤ j
      → sup.max_restarts ≤ restart_count sup a
      → restart_count sup b < sup.max_restarts
      → get_elem? sup.child_factories j ≡ some f
      → (handle_failure a sup ctx ≡ returned (give_up a sup, [], ctx))
        × (handle_failure b (give_up a sup) ctx
            ≡ returned (replaced b (restart_count sup b) j f (give_up a sup) ctx))
  dropped_child_shifts a b i j f sup ctx st d p q le over more found =
      let (st', mx, fs) = give_up-keeps a sup in
      let n : a ≢ b = λ e. grind arith in
      let same = give_up-count a sup b n in
      (
        handle_failure-over a sup ctx over,
        rw (← same) (
            handle_failure-one b j f (give_up a sup) ctx (st' ∙ st)
              (ap (position b) (give_up-children a sup)
                ∙ position-without a b sup.child_ids i j d p q le)
              (ap (λ l. get_elem? l j) fs ∙ found) (omega arith)),
      )
