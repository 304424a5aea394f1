-- ===== src/Actor/Call.antt =====
-- src/addr.rs, src/context.rs: the closures of envelopes and of `on_stop`.
use Prim.Native.String.{String}
use actinium_actor.Prelude.{ℕ, ◌≡◌, Option}
use actinium_actor.Actor.{Code}
use actinium_actor.Actor.Store.{Dispatch, ActorCell, Env, drop_reply, send_reply}
use actinium_actor.Actor.Exec.{Context, End, finished, unwound, exec}

abbrev pub type_mismatch : String
type_mismatch = "actor type mismatch: wrong actor type stored for this ActorId"

module _ (c : Code) where
  open c use {types, Any, Val}

  -- The result goes to the sender that waits for it; a panic drops the sender of the reply.
  unfoldable pub finish_handle :
      Option ℕ → Env types × End types (Any × Val) → Env types × End types Any
  finish_handle reply (env, unwound actor m) = (drop_reply reply env, unwound actor m)
  finish_handle reply (env, finished (actor, val) ctx) =
      (send_reply reply val env, finished actor ctx)

  -- The cast of the closure, by the comparison of the actor's type with the one that it names.
  unfoldable pub dispatch_as :
      (d : Dispatch types) (actor : Any)
      → Context
      → Env types
      → Dec (c.type_of actor ≡ d.kind)
      → Env types × End types Any
  unfolding finish_handle
  dispatch_as d actor ctx env (yes _) =
      finish_handle d.reply (exec c (c.handle actor d.msg) ctx env)
  dispatch_as d actor ctx env (no _) = (drop_reply d.reply env, unwound actor type_mismatch)

  -- The closure of `Addr::send` and `Addr::do_send`.
  unfoldable pub call_dispatch :
      Dispatch types → Any → Context → Env types → Env types × End types Any
  unfolding dispatch_as
  call_dispatch d actor ctx env =
      dispatch_as d actor ctx env (c.kind_discrete (c.type_of actor) d.kind)

  unfoldable pub stop_as :
      (cell : ActorCell types)
      → Context
      → Env types
      → Dec (c.type_of cell.actor ≡ cell.on_stop)
      → Env types × End types Any
  stop_as cell ctx env (yes _) = exec c (c.stopped cell.actor) ctx env
  stop_as cell ctx env (no _) = (env, finished cell.actor ctx)

  -- The closure `on_stop`: another type than the one it was made for is left alone.
  unfoldable pub call_on_stop : ActorCell types → Context → Env types → Env types × End types Any
  unfolding stop_as
  call_on_stop cell ctx env =
      stop_as cell ctx env (c.kind_discrete (c.type_of cell.actor) cell.on_stop)
