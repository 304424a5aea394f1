-- ===== src/System/Dispatching.antt =====
-- What `dispatch`, `spawn` and the removals do to the actors of the system.
use actinium_actor.Prelude.{
  ℕ, ◌≡◌, refl, ◌≢◌, Option, none, some, List, [], ◌∷◌, contains, if◌then◌else◌, ◌==◌, arith, inl,
  inr, Bool-cases,
}
use actinium_actor.HashMap.{get, insert, keys}
use actinium_actor.HashMap.Laws.{get-insert, get-remove, contains-keys, contains_key-get}
use actinium_actor.Outcome.{Outcome, returned, panicked, Ensures}
use actinium_actor.Actor.{Code}
use actinium_actor.Actor.Store.{Mail, ActorCell, Env}
use actinium_actor.Actor.Exec.{new, is_running, End, finished, unwound}
use actinium_actor.Actor.Call.{call_on_stop}
use actinium_actor.System.{
  ActorSystem, remove_actor, dispatch, stop_ids, stop_all_actors, after_handle, after_stop,
  stop_cell, and_then, dispatch_to,
}

module _ (c : Code) where
  open c use {types, Any}

  after_stop-get :
      (id : ℕ) (sys : ActorSystem types) (r : Env types × End types Any) (a : ℕ)
      → Ensures
          (after_stop c id sys r).1
          (λ sys'. get sys'.actors a ≡ (if id == a then none else get sys.actors a))
  unfolding after_stop
  after_stop-get id sys (env, finished x ctx) a = get-remove id sys.actors a
  after_stop-get id sys (env, unwound x m) a = tt

  stop_cell-get :
      (id : ℕ) (sys : ActorSystem types) (cell : Option (ActorCell types)) (env : Env types) (a : ℕ)
      → get sys.actors id ≡ cell
      → Ensures
          (stop_cell c id sys cell env).1
          (λ sys'. get sys'.actors a ≡ (if id == a then none else get sys.actors a))
  unfolding stop_cell
  stop_cell-get id sys none env a h = ground arith
  stop_cell-get id sys (some cell) env a h =
      after_stop-get id sys (call_on_stop c cell (new id) env) a

  -- A removal takes exactly the one actor away.
  pub remove_actor-get :
      (id : ℕ) (sys : ActorSystem types) (env : Env types) (a : ℕ)
      → Ensures
          (remove_actor c id sys env).1
          (λ sys'. get sys'.actors a ≡ (if id == a then none else get sys.actors a))
  unfolding remove_actor
  remove_actor-get id sys env a = stop_cell-get id sys (get sys.actors id) env a refl

  and_then-Ensures :
      (m : Env types × Outcome (ActorSystem types))
      (next : ActorSystem types → Env types → Env types × Outcome (ActorSystem types))
      (P Q : ActorSystem types → Type 0)
      → Ensures m.1 P
      → ((sys : ActorSystem types) (env : Env types) → P sys → Ensures (next sys env).1 Q)
      → Ensures (and_then c m next).1 Q
  and_then-Ensures (env, panicked m) next P Q h k = tt
  and_then-Ensures (env, returned sys) next P Q h k = k sys env h

  pub Ensures-map :
      (o : Outcome (ActorSystem types)) (P Q : ActorSystem types → Type 0)
      → Ensures o P
      → ((sys : ActorSystem types) → P sys → Q sys)
      → Ensures o Q
  Ensures-map (panicked m) P Q h k = tt
  Ensures-map (returned sys) P Q h k = k sys h

  stop_ids-get :
      (ids : List ℕ) (sys : ActorSystem types) (env : Env types) (a : ℕ)
      → Ensures
          (stop_ids c ids sys env).1
          (λ sys'. get sys'.actors a ≡ (if contains ids a then none else get sys.actors a))
  unfolding stop_ids
  stop_ids-get [] sys env a = refl
  stop_ids-get (id ∷ ids) sys env a =
      and_then-Ensures (remove_actor c id sys env) (stop_ids c ids) _ _
        (remove_actor-get id sys env a)
        (λ sys' env' h.
          Ensures-map (stop_ids c ids sys' env').1 _ _ (stop_ids-get ids sys' env' a)
            (λ sys'' k. ground arith))

  after_handle-others :
      (b : ℕ) (cell : ActorCell types) (sys : ActorSystem types) (r : Env types × End types Any)
      (a : ℕ)
      → b ≢ a
      → Ensures (after_handle c b cell sys r).1 (λ sys'. get sys'.actors a ≡ get sys.actors a)
  unfolding after_handle
  after_handle-others b cell sys (env, unwound _ m) a n = tt
  after_handle-others b cell sys (env, finished actor ctx) a n =
      elim (Bool-cases (is_running ctx)) [
        | inl go ↦ rw go (ground (arith, kept))
        | inr halt ↦ rw halt (
            Ensures-map (remove_actor c b after env).1 _ _ (remove_actor-get b after env a)
              (λ sys' h. ground (arith, kept)))
      ]
    where
      after : ActorSystem types
      after = record sys { actors = insert b (record cell { actor = actor }) sys.actors }

      kept : get after.actors a ≡ get sys.actors a
      kept = ground (arith, get-insert b (record cell { actor = actor }) sys.actors a)

  dispatch_to-others :
      (e : Mail types) (sys : ActorSystem types) (cell : Option (ActorCell types)) (env : Env types)
      (a : ℕ)
      → e.actor_id ≢ a
      → Ensures (dispatch_to c e sys cell env).1 (λ sys'. get sys'.actors a ≡ get sys.actors a)
  unfolding dispatch_to
  dispatch_to-others e sys none env a n = refl
  dispatch_to-others e sys (some cell) env a n = after_handle-others e.actor_id cell sys _ a n

  -- A dispatch that returns leaves every actor but the addressed one as it is.
  pub dispatch-others :
      (e : Mail types) (sys : ActorSystem types) (env : Env types) (a : ℕ)
      → e.actor_id ≢ a
      → Ensures (dispatch c e sys env).1 (λ sys'. get sys'.actors a ≡ get sys.actors a)
  unfolding dispatch
  dispatch-others e sys env a n = dispatch_to-others e sys (get sys.actors e.actor_id) env a n

  -- Unless it panics, `stop_all_actors` leaves no actor, in whatever order the map gives its keys.
  pub stop_all_actors-none :
      (order : List ℕ → List ℕ) (sys : ActorSystem types) (env : Env types)
      → ((l : List ℕ) (a : ℕ) → contains (order l) a ≡ contains l a)
      → (a : ℕ) → Ensures (stop_all_actors c order sys env).1 (λ sys'. get sys'.actors a ≡ none)
  unfolding stop_all_actors
  stop_all_actors-none order sys env perm a =
      Ensures-map (stop_ids c (order (keys sys.actors)) sys env).1 _ _
        (stop_ids-get (order (keys sys.actors)) sys env a)
        (λ sys' h. ground (
          arith,
          perm (keys sys.actors) a,
          contains-keys sys.actors a,
          contains_key-get sys.actors a,
        ))
