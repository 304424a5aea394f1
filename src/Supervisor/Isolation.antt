-- ===== src/Supervisor/Isolation.antt =====
-- Under `OneForOne` the failed child is replaced, and the other children are left alone.
use actinium_actor.Prelude.{
  ℕ, zero, suc, ◌<◌, ◌≡◌, refl, true, false, some, List, [], ◌∷◌, get_elem?, length-set,
  if◌then◌else◌, ◌==◌, arith, set, contains, Distinct,
}
use actinium_actor.HashMap.{remove}
use actinium_actor.HashMap.Laws.{get-insert, get-remove}
use actinium_actor.Outcome.{Returns}
use actinium_actor.Supervisor.{
  one_for_one, ChildFactory, Supervisor, position, restart_count, handle_failure,
}
use actinium_actor.Supervisor.Restart.{replaced, Fits}
use actinium_actor.Supervisor.Limit.{handle_failure-one}
use actinium_actor.Supervisor.Shift.{position-suc, position-zero}

-- The members of a list of identifiers in which `b`, at position `i`, gives way to `z`.
contains-set :
    (b z : ℕ) (xs : List ℕ) (i a : ℕ)
    → Distinct xs
    → position b xs ≡ some i
    → contains (set xs i z) a ≡ (if z == a then true else (if b == a then false else contains xs a))
contains-set b z [] i a d p = cc
contains-set b z (x ∷ xs) zero a d p = ground (arith, position-zero b x xs)
contains-set b z (x ∷ xs) (suc i) a d p =
    let (n, p') = position-suc b x xs i p in ground (arith, contains-set b z xs i a d.1 p')

set-Distinct :
    (b z : ℕ) (xs : List ℕ) (i : ℕ)
    → Distinct xs
    → position b xs ≡ some i
    → contains xs z ≡ false
    → Distinct (set xs i z)
set-Distinct b z [] i d p h = cc
set-Distinct b z (x ∷ xs) zero d p h = ground arith
set-Distinct b z (x ∷ xs) (suc i) d p h =
    let (n, p') = position-suc b x xs i p in
    ground (arith, set-Distinct b z xs i d.1 p', contains-set b z xs i x d.1 p')

module _ {C : Type 0} where
  pub record Isolated (failed new : ℕ) (before after : Supervisor C) : Type 0 where
    pub distinct : Distinct after.child_ids
    pub children :
        (a : ℕ)
        → contains after.child_ids a ≡ (
            if new == a then true else (if failed == a then false else contains before.child_ids a))
    pub counts :
        (a : ℕ)
        → restart_count after a ≡ (
            if new == a
            then suc (restart_count before failed)
            else (if failed == a then 0 else restart_count before a))
    pub fits : Fits after

  replaced-counts :
      (failed count i : ℕ) (f : ChildFactory C) (sup : Supervisor C) (ctx : C) (a : ℕ)
      → restart_count (replaced failed count i f sup ctx).0 a
        ≡ (if (f ctx).0 == a then suc count else (if failed == a then 0 else restart_count sup a))
  unfolding restart_count
  replaced-counts failed count i f sup ctx a = ground (
    arith,
    get-insert (f ctx).0 (suc count) (remove failed sup.restart_counts) a,
    get-remove failed sup.restart_counts a,
  )

  -- Under `OneForOne`, a failure within the limit of a child whose factory returns a new identifier:
  -- that identifier is the result and stands at the position of the failed child, with its count raised
  -- by one; the factories, the other children, their positions and their counts are as before, and no
  -- identifier occurs twice.
  pub one_for_one_isolates :
      (failed i : ℕ) (f : ChildFactory C) (sup : Supervisor C) (ctx : C)
      → sup.strategy ≡ one_for_one
      → Fits sup
      → Distinct sup.child_ids
      → position failed sup.child_ids ≡ some i
      → get_elem? sup.child_factories i ≡ some f
      → restart_count sup failed < sup.max_restarts
      → contains sup.child_ids (f ctx).0 ≡ false
      → Returns (handle_failure failed sup ctx) (λ r.
        (r.1 ≡ (f ctx).0 ∷ [])
        × (r.0.child_ids ≡ set sup.child_ids i (f ctx).0)
        × (r.0.child_factories ≡ sup.child_factories)
        × Isolated failed (f ctx).0 sup r.0)
  one_for_one_isolates failed i f sup ctx st fits d p found more new =
      rw (handle_failure-one failed i f sup ctx st p found more) (
        refl,
        refl,
        refl,
        record {
          distinct = set-Distinct failed (f ctx).0 sup.child_ids i d p new;
          children = λ a. contains-set failed (f ctx).0 sup.child_ids i a d p;
          counts = λ a. replaced-counts failed (restart_count sup failed) i f sup ctx a;
          fits = rw (length-set sup.child_ids i (f ctx).0) fits;
        },
      )
