-- ===== src/Actor/Replies.antt =====
-- Who answers a `send`: only the closures of envelopes do, and they always do.
use actinium_actor.Prelude.{ℕ, ◌≡◌, refl, ◌∙◌, Option, some, arith}
use actinium_actor.HashMap.Laws.{get-insert}
use actinium_actor.Actor.{Types, Code, Addr, Script, SendResult, sent, failed, actor_not_running}
use actinium_actor.Actor.Store.{
  Dispatch, ActorCell, Env, do_send, receive_reply, drop_reply, send_reply,
}
use actinium_actor.Actor.Exec.{Context, End, finished, unwound, exec}
use actinium_actor.Actor.Call.{call_dispatch, dispatch_as, call_on_stop, stop_as, finish_handle}
use actinium_actor.Actor.Frame.{exec-Inv}

do_send-replies :
    {t : Types} (addr : Addr t) (msg : t.Msg) (env : Env t)
    → (do_send addr msg env).0.replies ≡ env.replies
unfolding do_send
do_send-replies addr msg env = ground arith

module _ (c : Code) where
  open c use {types, Any, Val}

  pub exec-replies :
      {R : Type 0} (s : Script types R) (ctx : Context) (env : Env types)
      → (exec c s ctx env).0.replies ≡ env.replies
  exec-replies s ctx env =
      exec-Inv c (λ env'. env'.replies ≡ env.replies)
        (record {
          sends = λ addr msg env' h. do_send-replies addr msg env' ∙ h;
          writes = λ w env' h. h;
          spawns = λ s' env' shape h. h;
        })
        s ctx env refl

  pub call_on_stop-replies :
      (cell : ActorCell types) (ctx : Context) (env : Env types)
      → (call_on_stop c cell ctx env).0.replies ≡ env.replies
  unfolding call_on_stop
  call_on_stop-replies cell ctx env = go (c.kind_discrete (c.type_of cell.actor) cell.on_stop)
    where
      go :
          (d : Dec (c.type_of cell.actor ≡ cell.on_stop))
          → (stop_as c cell ctx env d).0.replies ≡ env.replies
      go (yes _) = exec-replies (c.stopped cell.actor) ctx env
      go (no _) = refl

  pub receive-drop :
      (k : ℕ) (env : Env types)
      → receive_reply k (drop_reply (some k) env) ≡ some (failed actor_not_running)
  unfolding receive_reply drop_reply
  receive-drop k env = ground (arith, get-insert k (failed actor_not_running) env.replies k)

  pub receive-send :
      (k : ℕ) (v : Val) (env : Env types)
      → receive_reply k (send_reply (some k) v env) ≡ some (sent v)
  unfolding receive_reply send_reply
  receive-send k v env = ground (arith, get-insert k (sent v) env.replies k)

  pub receive-same :
      (k : ℕ) (env env' : Env types)
      → env'.replies ≡ env.replies
      → receive_reply k env' ≡ receive_reply k env
  unfolding receive_reply
  receive-same k env env' h = rw h

  -- Whoever waits on reply `k` has an answer.
  abbrev pub Answered : ℕ → Env types → Type 0
  Answered k env = (r : SendResult Val) × (receive_reply k env ≡ some r)

  finish_handle-Answered :
      (k : ℕ) (reply : Option ℕ) (r : Env types × End types (Any × Val))
      → reply ≡ some k
      → Answered k (finish_handle c reply r).0
  unfolding finish_handle
  finish_handle-Answered k reply (env, unwound actor m) h =
      (failed actor_not_running, rw h (receive-drop k env))
  finish_handle-Answered k reply (env, finished (actor, val) ctx) h =
      (sent val, rw h (receive-send k val env))

  -- The closure of `Addr::send` answers whoever waits: with the result, or by dropping the sender.
  pub call_dispatch-Answered :
      (k : ℕ) (d : Dispatch types) (actor : Any) (ctx : Context) (env : Env types)
      → d.reply ≡ some k
      → Answered k (call_dispatch c d actor ctx env).0
  unfolding call_dispatch
  call_dispatch-Answered k d actor ctx env h = go (c.kind_discrete (c.type_of actor) d.kind)
    where
      go : (x : Dec (c.type_of actor ≡ d.kind)) → Answered k (dispatch_as c d actor ctx env x).0
      go (yes _) = finish_handle-Answered k d.reply _ h
      go (no _) = (failed actor_not_running, rw h (receive-drop k env))
