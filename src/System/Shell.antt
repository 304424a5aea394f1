-- ===== src/System/Shell.antt =====
-- What a dispatch leaves alone: all of the system but its actors.
use actinium_actor.Prelude.{ℕ, ◌≡◌, refl, Option, none, some, Bool-cases, inl, inr}
use actinium_actor.HashMap.{get}
use actinium_actor.Outcome.{Ensures}
use actinium_actor.Actor.{Types, Code}
use actinium_actor.Actor.Store.{Mail, ActorCell, Env}
use actinium_actor.Actor.Exec.{is_running, End, finished, unwound}
use actinium_actor.System.{
  ActorSystem, dispatch, dispatch_to, after_handle, remove_actor, stop_cell, after_stop,
}

-- The channel, the system's sender of it, the flag and the next identifier are as before.
abbrev pub Same : {t : Types} → ActorSystem t → ActorSystem t → Type 0
Same before after =
    (after.rx ≡ before.rx)
    × (after.tx ≡ before.tx)
    × (after.running ≡ before.running)
    × (after.next_id ≡ before.next_id)

module _ (c : Code) where
  open c use {types, Any}

  stop_cell-Same :
      (id : ℕ) (sys : ActorSystem types) (cell : Option (ActorCell types)) (env : Env types)
      → Ensures (stop_cell c id sys cell env).1 (Same sys)
  unfolding stop_cell after_stop
  stop_cell-Same id sys none env = (refl, refl, refl, refl)
  stop_cell-Same id sys (some cell) env = go _
    where
      go : (r : Env types × End types Any) → Ensures (after_stop c id sys r).1 (Same sys)
      go (env', finished x ctx) = (refl, refl, refl, refl)
      go (env', unwound x m) = tt

  pub remove_actor-Same :
      (id : ℕ) (sys : ActorSystem types) (env : Env types)
      → Ensures (remove_actor c id sys env).1 (Same sys)
  unfolding remove_actor
  remove_actor-Same id sys env = stop_cell-Same id sys (get sys.actors id) env

  after_handle-Same :
      (b : ℕ) (cell : ActorCell types) (sys : ActorSystem types) (r : Env types × End types Any)
      → Ensures (after_handle c b cell sys r).1 (Same sys)
  unfolding after_handle
  after_handle-Same b cell sys (env, unwound _ m) = tt
  after_handle-Same b cell sys (env, finished actor ctx) = elim (Bool-cases (is_running ctx)) [
    | inl go ↦ rw go (refl, refl, refl, refl)
    | inr halt ↦ rw halt (remove_actor-Same b _ env)
  ]

  pub dispatch-Same :
      (e : Mail types) (sys : ActorSystem types) (env : Env types)
      → Ensures (dispatch c e sys env).1 (Same sys)
  unfolding dispatch dispatch_to
  dispatch-Same e sys env = go (get sys.actors e.actor_id)
    where
      go : (o : Option (ActorCell types)) → Ensures (dispatch_to c e sys o env).1 (Same sys)
      go none = (refl, refl, refl, refl)
      go (some cell) = after_handle-Same e.actor_id cell sys _
