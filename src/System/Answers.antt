-- ===== src/System/Answers.antt =====
-- `Addr::send` on the single-threaded runtime: what the sender gets.
use actinium_actor.Prelude.{
  ℕ, ◌≡◌, refl, ◌∙◌, ap, Bool, Option, none, some, arith, if◌then◌else◌, inl, inr, Bool-cases,
}
use actinium_actor.HashMap.{get, insert}
use actinium_actor.HashMap.Laws.{get-insert}
use actinium_actor.Outcome.{returned, Ensures}
use actinium_actor.Actor.{Code, sent, failed, actor_not_running}
use actinium_actor.Actor.Store.{
  Dispatch, ActorCell, Mail, Env, receive_reply, send_reply, drop_envelope,
}
use actinium_actor.Actor.Exec.{Context, new, is_running, End, finished, unwound, exec}
use actinium_actor.Actor.Call.{call_dispatch, dispatch_as, finish_handle}
use actinium_actor.Actor.Replies.{
  call_on_stop-replies, call_dispatch-Answered, Answered, receive-drop, receive-send, receive-same,
}
use actinium_actor.System.{
  ActorSystem, dispatch, dispatch_to, after_handle, remove_actor, stop_cell, after_stop,
}
use actinium_actor.System.Dispatching.{remove_actor-get, Ensures-map}

module _ (c : Code) where
  open c use {types, Any, Val}

  after_stop-env :
      (a : ℕ) (sys : ActorSystem types) (r : Env types × End types Any)
      → (after_stop c a sys r).0 ≡ r.0
  unfolding after_stop
  after_stop-env a sys (env, finished x ctx) = refl
  after_stop-env a sys (env, unwound x m) = refl

  stop_cell-replies :
      (a : ℕ) (sys : ActorSystem types) (cell : Option (ActorCell types)) (env : Env types)
      → (stop_cell c a sys cell env).0.replies ≡ env.replies
  unfolding stop_cell
  stop_cell-replies a sys none env = refl
  stop_cell-replies a sys (some cell) env =
      ap (λ (x : Env types). x.replies) (after_stop-env a sys _)
      ∙ call_on_stop-replies c cell (new a) env

  remove_actor-replies :
      (a : ℕ) (sys : ActorSystem types) (env : Env types)
      → (remove_actor c a sys env).0.replies ≡ env.replies
  unfolding remove_actor
  remove_actor-replies a sys env = stop_cell-replies a sys (get sys.actors a) env

  after_handle-replies :
      (b : ℕ) (cell : ActorCell types) (sys : ActorSystem types) (r : Env types × End types Any)
      → (after_handle c b cell sys r).0.replies ≡ r.0.replies
  unfolding after_handle
  after_handle-replies b cell sys (env, unwound _ m) = refl
  after_handle-replies b cell sys (env, finished actor ctx) = elim (Bool-cases (is_running ctx)) [
    | inl go ↦ rw go
    | inr halt ↦ rw halt (remove_actor-replies b _ env)
  ]

  dispatch_to-Answered :
      (k : ℕ) (e : Mail types) (sys : ActorSystem types) (cell : Option (ActorCell types))
      (env : Env types)
      → e.dispatch.reply ≡ some k
      → Answered c k (dispatch_to c e sys cell env).0
  unfolding dispatch_to drop_envelope
  dispatch_to-Answered k e sys none env h = (failed actor_not_running, rw h (receive-drop c k env))
  dispatch_to-Answered k e sys (some cell) env h =
      let r = call_dispatch c e.dispatch cell.actor (new e.actor_id) env in
      let (x, answer) = call_dispatch-Answered c k e.dispatch cell.actor (new e.actor_id) env h in
      (x, receive-same c k r.0 _ (after_handle-replies e.actor_id cell sys r) ∙ answer)

  -- Whoever waits in `send` is answered once its message is dispatched, on every path: if the actor
  -- is gone, if the handler returns, if it stops the actor, and if it panics.
  pub dispatch-Answered :
      (k : ℕ) (e : Mail types) (sys : ActorSystem types) (env : Env types)
      → e.dispatch.reply ≡ some k
      → Answered c k (dispatch c e sys env).0
  unfolding dispatch
  dispatch-Answered k e sys env h = dispatch_to-Answered k e sys (get sys.actors e.actor_id) env h

  -- A message for an actor that is not there: the sender gets `ActorNotRunning`, the system stays.
  pub dispatch-missing :
      (k : ℕ) (e : Mail types) (sys : ActorSystem types) (env : Env types)
      → get sys.actors e.actor_id ≡ none
      → e.dispatch.reply ≡ some k
      → (receive_reply k (dispatch c e sys env).0 ≡ some (failed actor_not_running))
        × ((dispatch c e sys env).1 ≡ returned sys)
  unfolding dispatch dispatch_to drop_envelope
  dispatch-missing k e sys env gone h = rw (gone, h) (receive-drop c k env, refl)

  pub call_dispatch-finished :
      (d : Dispatch types) (actor : Any) (ctx : Context) (env : Env types) {env' : Env types}
      {actor' : Any} {val : Val} {ctx' : Context}
      → c.type_of actor ≡ d.kind
      → exec c (c.handle actor d.msg) ctx env ≡ (env', finished (actor', val) ctx')
      → call_dispatch c d actor ctx env ≡ (send_reply d.reply val env', finished actor' ctx')
  unfolding call_dispatch dispatch_as finish_handle
  call_dispatch-finished d actor ctx env {env'} {actor'} {val} {ctx'} same h =
      go (c.kind_discrete (c.type_of actor) d.kind)
    where
      go :
          (x : Dec (c.type_of actor ≡ d.kind))
          → dispatch_as c d actor ctx env x ≡ (send_reply d.reply val env', finished actor' ctx')
      go (yes _) = ap (finish_handle c d.reply) h
      go (no n) = absurd (n same)

  -- The state of the actor after a handler that returned.
  abbrev pub kept : Bool → ActorCell types → Any → Option (ActorCell types)
  kept running cell actor = if running then some (record cell { actor = actor }) else none

  after_handle-kept :
      (b : ℕ) (cell : ActorCell types) (sys : ActorSystem types) (env : Env types) (actor : Any)
      (ctx : Context)
      → Ensures
          (after_handle c b cell sys (env, finished actor ctx)).1
          (λ sys'. get sys'.actors b ≡ kept (is_running ctx) cell actor)
  unfolding after_handle
  after_handle-kept b cell sys env actor ctx = elim (Bool-cases (is_running ctx)) [
    | inl go ↦ rw go (ground (arith, inserted))
    | inr halt ↦ rw halt (
        Ensures-map c (remove_actor c b after env).1 _ _ (remove_actor-get c b after env b)
          (λ sys' h. ground arith))
  ]
    where
      after : ActorSystem types
      after = record sys { actors = insert b (record cell { actor = actor }) sys.actors }

      inserted : get after.actors b ≡ some (record cell { actor = actor })
      inserted = ground (arith, get-insert b (record cell { actor = actor }) sys.actors b)

  -- A message of the actor's type whose handler returns: the sender gets its result, and the actor stays as the handler left it,
  -- or is gone if the handler called `ctx.stop()`.
  pub dispatch-finished :
      (k : ℕ) (e : Mail types) (sys : ActorSystem types) (env : Env types) (cell : ActorCell types)
      {env' : Env types} {actor : Any} {val : Val} {ctx : Context}
      → get sys.actors e.actor_id ≡ some cell
      → c.type_of cell.actor ≡ e.dispatch.kind
      → e.dispatch.reply ≡ some k
      → exec c (c.handle cell.actor e.dispatch.msg) (new e.actor_id) env
        ≡ (env', finished (actor, val) ctx)
      → (receive_reply k (dispatch c e sys env).0 ≡ some (sent val))
        × Ensures
            (dispatch c e sys env).1
            (λ sys'. get sys'.actors e.actor_id ≡ kept (is_running ctx) cell actor)
  unfolding dispatch dispatch_to
  dispatch-finished k e sys env cell {env'} {actor} {val} {ctx} found same h ran =
      let p = call_dispatch-finished e.dispatch cell.actor (new e.actor_id) env same ran in
      rw (found, p)
        (
          receive-same c k (send_reply e.dispatch.reply val env') _ (
                after_handle-replies e.actor_id cell sys
                  (send_reply e.dispatch.reply val env', finished actor ctx))
              ∙ rw h (receive-send c k val env'),
          after_handle-kept e.actor_id cell sys _ actor ctx,
        )
