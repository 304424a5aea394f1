-- ===== src/Actor/Silent.antt =====
-- Programs whose hooks and handlers send nothing.
use actinium_actor.Prelude.{ℕ, ◌≡◌, refl, ◌∙◌, Option, none, some}
use actinium_actor.Actor.{Types, Code}
use actinium_actor.Actor.Store.{Dispatch, ActorCell, Env, drop_reply, send_reply}
use actinium_actor.Actor.Exec.{Context, End, finished, unwound, exec}
use actinium_actor.Actor.Call.{call_dispatch, dispatch_as, call_on_stop, stop_as, finish_handle}

pub record Silent (c : Code) : Type 0 where
  pub handles :
      (actor : c.Any) (msg : c.Msg) (ctx : Context) (env : Env c.types)
      → (exec c (c.handle actor msg) ctx env).0.channels ≡ env.channels
  pub stops :
      (actor : c.Any) (ctx : Context) (env : Env c.types)
      → (exec c (c.stopped actor) ctx env).0.channels ≡ env.channels

pub drop_reply-channels :
    (t : Types) (reply : Option ℕ) (env : Env t) → (drop_reply reply env).channels ≡ env.channels
unfolding drop_reply
drop_reply-channels t none env = refl
drop_reply-channels t (some k) env = refl

send_reply-channels :
    (t : Types) (reply : Option ℕ) (v : t.Val) (env : Env t)
    → (send_reply reply v env).channels ≡ env.channels
unfolding send_reply
send_reply-channels t none v env = refl
send_reply-channels t (some k) v env = refl

module _ (c : Code) (silent : Silent c) where
  open c use {types, Any, Val}

  pub call_on_stop-channels :
      (cell : ActorCell types) (ctx : Context) (env : Env types)
      → (call_on_stop c cell ctx env).0.channels ≡ env.channels
  unfolding call_on_stop stop_as
  call_on_stop-channels cell ctx env = go (c.kind_discrete (c.type_of cell.actor) cell.on_stop)
    where
      go :
          (d : Dec (c.type_of cell.actor ≡ cell.on_stop))
          → (stop_as c cell ctx env d).0.channels ≡ env.channels
      go (yes _) = silent.stops cell.actor ctx env
      go (no _) = refl

  finish_handle-channels :
      (reply : Option ℕ) (r : Env types × End types (Any × Val))
      → (finish_handle c reply r).0.channels ≡ r.0.channels
  unfolding finish_handle
  finish_handle-channels reply (env, unwound actor m) = drop_reply-channels c.types reply env
  finish_handle-channels reply (env, finished (actor, val) ctx) =
      send_reply-channels c.types reply val env

  pub call_dispatch-channels :
      (d : Dispatch types) (actor : Any) (ctx : Context) (env : Env types)
      → (call_dispatch c d actor ctx env).0.channels ≡ env.channels
  unfolding call_dispatch dispatch_as
  call_dispatch-channels d actor ctx env = go (c.kind_discrete (c.type_of actor) d.kind)
    where
      go :
          (x : Dec (c.type_of actor ≡ d.kind))
          → (dispatch_as c d actor ctx env x).0.channels ≡ env.channels
      go (yes _) = finish_handle-channels d.reply _ ∙ silent.handles actor d.msg ctx env
      go (no _) = drop_reply-channels c.types d.reply env
