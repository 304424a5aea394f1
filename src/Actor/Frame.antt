-- ===== src/Actor/Frame.antt =====
-- What every script keeps: an invariant of the shared state that `do_send`, a write of the world and a
-- change of the state for spawning keep is kept by `exec`.
use actinium_actor.Prelude.{
  ℕ, ◌≡◌, refl, Bool, true, false, Option, none, some, length, length-set, get_elem?,
}
use actinium_actor.HashMap.{HashMap, insert}
use actinium_actor.Outcome.{Outcome, returned, panicked, Ensures}
use actinium_actor.Actor.{
  Types, Code, Addr, SendResult, Script, done, panics, stop, self_id, spawn, read, write,
}
use actinium_actor.Actor.Store.{
  Dispatch, SpawnShared, ActorCell, Env, do_send, allocate_id, drop_reply, send_reply,
}
use actinium_actor.Actor.Spawner.{spawn_actor_direct, put_cell}
use actinium_actor.Actor.Exec.{
  Context, End, finished, unwound, exec, start_child, spawn_child, after_spawn, insert_child,
  inserted,
}
use actinium_actor.Actor.Call.{call_dispatch, dispatch_as, call_on_stop, stop_as, finish_handle}

-- Spawning changes neither the numbers of workers and actor maps nor the senders.
pub record Shape {t : Types} (before after : SpawnShared t) : Type 0 where
  pub maps : length after.actor_maps ≡ length before.actor_maps
  pub senders : after.msg_txs ≡ before.msg_txs
  pub count : after.num_workers ≡ before.num_workers

allocate_id-Shape : {t : Types} (s : SpawnShared t) → Shape s (allocate_id s).1
unfolding allocate_id
allocate_id-Shape s = record { maps = refl; senders = refl; count = refl }

spawn_actor_direct-Shape :
    {t : Types} (id idx : ℕ) (cell : ActorCell t) (s : SpawnShared t)
    → Ensures (spawn_actor_direct id idx cell s) (λ x. Shape s x.1)
unfolding spawn_actor_direct put_cell
spawn_actor_direct-Shape id idx cell s = go (get_elem? s.actor_maps idx) (get_elem? s.msg_txs idx)
  where
    go :
        (o : Option (HashMap (ActorCell _))) (p : Option ℕ)
        → Ensures (put_cell idx id cell s o p) (λ x. Shape s x.1)
    go none p = tt
    go (some m) none = tt
    go (some m) (some tx) = record {
      maps = length-set s.actor_maps idx (insert id cell m);
      senders = refl;
      count = refl;
    }

pub record Kept (c : Code) (Inv : Env c.types → Type 0) : Type 0 where
  pub sends :
      (addr : Addr c.types) (msg : c.Msg) (env : Env c.types)
      → Inv env
      → Inv (do_send addr msg env).0
  pub writes : (w : c.World) (env : Env c.types) → Inv env → Inv (record env { world = w })
  pub spawns :
      (s : SpawnShared c.types) (env : Env c.types)
      → Shape env.shared s
      → Inv env
      → Inv (record env { shared = s })

module _ (c : Code) (Inv : Env c.types → Type 0) (kept : Kept c Inv) where
  open c use {types, Any}

  inserted-Inv :
      (n : ℕ) (kind : c.Kind) (env : Env types) (o : Outcome (ℕ × SpawnShared types))
      → Ensures o (λ x. Shape env.shared x.1)
      → Inv env
      → Inv (inserted c n kind env o).0
  unfolding inserted
  inserted-Inv n kind env (panicked m) sh h = h
  inserted-Inv n kind env (returned (tx, s)) sh h = kept.spawns s env sh h

  start_child-Inv :
      (n w : ℕ) (r : Env types × End types Any) → Inv r.0 → Inv (start_child c n w r).0
  unfolding start_child insert_child
  start_child-Inv n w (env, unwound _ m) h = h
  start_child-Inv n w (env, finished child _) h =
      inserted-Inv n _ env _ (spawn_actor_direct-Shape n w _ env.shared) h

  after_spawn-Inv :
      {R : Type 0} (self : Any) (next : Addr types → Env types → Env types × End types R)
      (r : Env types × Outcome (Addr types))
      → ((a : Addr types) (env : Env types) → Inv env → Inv (next a env).0)
      → Inv r.0
      → Inv (after_spawn c self next r).0
  unfolding after_spawn
  after_spawn-Inv self next (env, panicked m) hn h = h
  after_spawn-Inv self next (env, returned a) hn h = hn a env h

  spawn_child-Inv :
      {R : Type 0} (b : Bool) (self : Any) (start : Context → Env types → Env types × End types Any)
      (next : Addr types → Env types → Env types × End types R) (ctx : Context) (env : Env types)
      → ((ctx : Context) (env : Env types) → Inv env → Inv (start ctx env).0)
      → ((a : Addr types) (env : Env types) → Inv env → Inv (next a env).0)
      → Inv env
      → Inv (spawn_child c b self start next ctx env).0
  unfolding spawn_child
  spawn_child-Inv false self start next ctx env hs hn h = h
  spawn_child-Inv true self start next ctx env hs hn h =
      after_spawn-Inv self next (start_child c _ ctx.worker_idx (start _ _)) hn (
        start_child-Inv _ ctx.worker_idx (start _ _)
          (hs _ _ (kept.spawns _ env (allocate_id-Shape env.shared) h)))

  pub exec-Inv :
      {R : Type 0} (s : Script types R) (ctx : Context) (env : Env types)
      → Inv env
      → Inv (exec c s ctx env).0
  unfolding exec
  exec-Inv (done r) ctx env h = h
  exec-Inv (panics self m) ctx env h = h
  exec-Inv (stop k) ctx env h = exec-Inv k _ env h
  exec-Inv (self_id k) ctx env h = exec-Inv (k ctx.actor_id) ctx env h
  exec-Inv (Script.do_send addr msg k) ctx env h =
      exec-Inv (k (do_send addr msg env).1) ctx (do_send addr msg env).0 (kept.sends addr msg env h)
  exec-Inv (spawn self child k) ctx env h =
      spawn_child-Inv ctx.spawn_shared self (exec c child) (λ addr env'. exec c (k addr) ctx env')
        ctx env (exec-Inv child) (λ addr env'. exec-Inv (k addr) ctx env') h
  exec-Inv (read k) ctx env h = exec-Inv (k env.world) ctx env h
  exec-Inv (write w k) ctx env h = exec-Inv k ctx (record env { world = w }) (kept.writes w env h)

-- An invariant that does not read the answers of `send` is kept by the closures as well.
module _ (c : Code) (Inv : Env c.types → Type 0) (kept : Kept c Inv)
    (answers : (r : HashMap (SendResult c.Val)) (env : Env c.types)
      → Inv env
      → Inv (record env { replies = r })) where
  open c use {types, Any, Val}

  pub drop_reply-Inv : (reply : Option ℕ) (env : Env types) → Inv env → Inv (drop_reply reply env)
  unfolding drop_reply
  drop_reply-Inv none env h = h
  drop_reply-Inv (some k) env h = answers _ env h

  send_reply-Inv :
      (reply : Option ℕ) (v : Val) (env : Env types) → Inv env → Inv (send_reply reply v env)
  unfolding send_reply
  send_reply-Inv none v env h = h
  send_reply-Inv (some k) v env h = answers _ env h

  finish_handle-Inv :
      (reply : Option ℕ) (r : Env types × End types (Any × Val))
      → Inv r.0
      → Inv (finish_handle c reply r).0
  unfolding finish_handle
  finish_handle-Inv reply (env, unwound actor m) h = drop_reply-Inv reply env h
  finish_handle-Inv reply (env, finished (actor, val) ctx) h = send_reply-Inv reply val env h

  pub call_dispatch-Inv :
      (d : Dispatch types) (actor : Any) (ctx : Context) (env : Env types)
      → Inv env
      → Inv (call_dispatch c d actor ctx env).0
  unfolding call_dispatch dispatch_as
  call_dispatch-Inv d actor ctx env h = go (c.kind_discrete (c.type_of actor) d.kind)
    where
      go : (x : Dec (c.type_of actor ≡ d.kind)) → Inv (dispatch_as c d actor ctx env x).0
      go (yes _) =
          finish_handle-Inv d.reply _ (exec-Inv c Inv kept (c.handle actor d.msg) ctx env h)
      go (no _) = drop_reply-Inv d.reply env h

  pub call_on_stop-Inv :
      (cell : ActorCell types) (ctx : Context) (env : Env types)
      → Inv env
      → Inv (call_on_stop c cell ctx env).0
  unfolding call_on_stop stop_as
  call_on_stop-Inv cell ctx env h = go (c.kind_discrete (c.type_of cell.actor) cell.on_stop)
    where
      go : (x : Dec (c.type_of cell.actor ≡ cell.on_stop)) → Inv (stop_as c cell ctx env x).0
      go (yes _) = exec-Inv c Inv kept (c.stopped cell.actor) ctx env h
      go (no _) = h
