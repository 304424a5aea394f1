-- ===== src/Worker/Answers.antt =====
-- src/runtime.rs, src/addr.rs: who waits in `Addr::send` on a worker is answered by the dispatch, and
-- an answer stays.
use actinium_actor.Prelude.{
  ℕ, ◌≡◌, refl, ◌∙◌, Option, none, some, List, [], ◌∷◌, arith, Bool-cases, inl, inr, ◌==◌,
}
use actinium_actor.HashMap.{get, remove}
use actinium_actor.HashMap.Laws.{get-insert}
use actinium_actor.Scheduler.{pending}
use actinium_actor.Actor.{Code, sent, failed, actor_not_running}
use actinium_actor.Actor.Store.{
  Dispatch, Mail, ActorCell, Env, receive_reply, drop_reply, send_reply, drop_envelope,
}
use actinium_actor.Actor.Exec.{Context, End, finished, unwound, is_running}
use actinium_actor.Actor.Call.{call_dispatch, dispatch_as, call_on_stop, finish_handle}
use actinium_actor.Actor.Replies.{
  Answered, exec-replies, call_on_stop-replies, call_dispatch-Answered, receive-drop, receive-same,
}
use actinium_actor.Worker.{
  Worker, actor_map, set_actor_map, drop_all, forget, after_stop, after_handle, dispatch,
  dispatch_to,
}

module _ (c : Code) (k : ℕ) where
  open c use {types, Any, Val}

  pub drop_reply-Answered :
      (reply : Option ℕ) (env : Env types) → Answered c k env → Answered c k (drop_reply reply env)
  unfolding drop_reply receive_reply
  drop_reply-Answered none env h = h
  drop_reply-Answered (some j) env (r, h) = elim (Bool-cases (j == k)) [
    | inl same ↦ (
      failed actor_not_running,
      ground (arith, get-insert j (failed actor_not_running) env.replies k),
    )
    | inr other ↦ (r, ground (arith, get-insert j (failed actor_not_running) env.replies k))
  ]

  send_reply-Answered :
      (reply : Option ℕ) (v : Val) (env : Env types)
      → Answered c k env
      → Answered c k (send_reply reply v env)
  unfolding send_reply receive_reply
  send_reply-Answered none v env h = h
  send_reply-Answered (some j) v env (r, h) = elim (Bool-cases (j == k)) [
    | inl same ↦ (sent v, ground (arith, get-insert j (sent v) env.replies k))
    | inr other ↦ (r, ground (arith, get-insert j (sent v) env.replies k))
  ]

  pub same-Answered :
      (env env' : Env types) → env'.replies ≡ env.replies → Answered c k env → Answered c k env'
  same-Answered env env' same (r, h) = (r, receive-same c k env env' same ∙ h)

  finish_handle-keeps :
      (reply : Option ℕ) (r : Env types × End types (Any × Val))
      → Answered c k r.0
      → Answered c k (finish_handle c reply r).0
  unfolding finish_handle
  finish_handle-keeps reply (env, unwound actor m) h = drop_reply-Answered reply env h
  finish_handle-keeps reply (env, finished (actor, val) ctx) h = send_reply-Answered reply val env h

  call_dispatch-keeps :
      (d : Dispatch types) (actor : Any) (ctx : Context) (env : Env types)
      → Answered c k env
      → Answered c k (call_dispatch c d actor ctx env).0
  unfolding call_dispatch dispatch_as
  call_dispatch-keeps d actor ctx env h = go (c.kind_discrete (c.type_of actor) d.kind)
    where
      go : (x : Dec (c.type_of actor ≡ d.kind)) → Answered c k (dispatch_as c d actor ctx env x).0
      go (yes _) =
          finish_handle-keeps d.reply _
            (same-Answered env _ (exec-replies c (c.handle actor d.msg) ctx env) h)
      go (no _) = drop_reply-Answered d.reply env h

  pub drop_all-Answered :
      (q : List (Mail types)) (env : Env types) → Answered c k env → Answered c k (drop_all q env)
  unfolding drop_all drop_envelope
  drop_all-Answered [] env h = h
  drop_all-Answered (e ∷ q) env h =
      drop_all-Answered q _ (drop_reply-Answered e.dispatch.reply env h)

  after_stop-Answered :
      (a : ℕ) (w : Worker types) (r : Env types × End types Any)
      → Answered c k r.0
      → Answered c k (after_stop a w r).0
  unfolding after_stop forget
  after_stop-Answered a w (env, unwound _ m) h = h
  after_stop-Answered a w (env, finished _ _) h = drop_all-Answered (pending w.scheduler a) env h

  pub stopped-Answered :
      (a : ℕ) (cell : ActorCell types) (ctx : Context) (w : Worker types) (env : Env types)
      → Answered c k env
      → Answered c k (after_stop a w (call_on_stop c cell ctx env)).0
  stopped-Answered a cell ctx w env h =
      after_stop-Answered a w _ (same-Answered env _ (call_on_stop-replies c cell ctx env) h)

  after_handle-Answered :
      (a : ℕ) (cell : ActorCell types) (w : Worker types) (r : Env types × End types Any)
      → Answered c k r.0
      → Answered c k (after_handle c a cell w r).0
  unfolding after_handle set_actor_map receive_reply
  after_handle-Answered a cell w (env, unwound actor _) h =
      stopped-Answered a (record cell { actor = actor }) _ w env h
  after_handle-Answered a cell w (env, finished actor ctx) h = elim (Bool-cases (is_running ctx)) [
    | inl on ↦ rw on h
    | inr off ↦ rw off (stopped-Answered a (record cell { actor = actor }) _ w env h)
  ]

  -- Whoever has an answer keeps it.
  pub dispatch-keeps :
      (e : Mail types) (w : Worker types) (env : Env types)
      → Answered c k env
      → Answered c k (dispatch c e w env).0
  unfolding dispatch dispatch_to drop_envelope set_actor_map
  dispatch-keeps e w env h = go (get (actor_map w env) e.actor_id)
    where
      go : (o : Option (ActorCell types)) → Answered c k (dispatch_to c e w o env).0
      go none = drop_reply-Answered e.dispatch.reply env h
      go (some cell) = after_handle-Answered e.actor_id cell w _ (
          call_dispatch-keeps e.dispatch cell.actor _
            (set_actor_map w (remove e.actor_id (actor_map w env)) env)
            (same-Answered env _ refl h))

  -- Whoever waits for the answer to a message has it once the worker has dispatched it.
  pub dispatch-Answered :
      (e : Mail types) (w : Worker types) (env : Env types)
      → e.dispatch.reply ≡ some k
      → Answered c k (dispatch c e w env).0
  unfolding dispatch dispatch_to drop_envelope
  dispatch-Answered e w env h = go (get (actor_map w env) e.actor_id)
    where
      go : (o : Option (ActorCell types)) → Answered c k (dispatch_to c e w o env).0
      go none = (failed actor_not_running, rw h (receive-drop c k env))
      go (some cell) =
          after_handle-Answered e.actor_id cell w _
            (call_dispatch-Answered c k e.dispatch cell.actor _ _ h)
