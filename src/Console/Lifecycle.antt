-- ===== src/Console/Lifecycle.antt =====
-- What the meta actor does to the registry and to the actors when it creates and destroys workers.
use actinium_actor.Prelude.{
  ℕ, ◌+◌, ◌%◌, ◌^◌, ◌≡◌, refl, ap, ◌∙◌, true, false, Option, none, some, List, [], if◌then◌else◌,
  ◌==◌, arith, set, get_elem?,
}
use actinium_actor.HashMap.{HashMap, get, insert, remove}
use actinium_actor.HashMap.Laws.{get-insert, get-remove}
use actinium_actor.Outcome.{returned}
use actinium_actor.Text.{Text}
use actinium_actor.Actor.{Addr}
use actinium_actor.Actor.Store.{Env, ActorCell, do_send, allocate_id}
use actinium_actor.Actor.Spawner.{spawn_actor_direct, put_cell}
use actinium_actor.Actor.Exec.{
  Context, End, finished, exec, spawn_child, start_child, insert_child, inserted, after_spawn,
  with_spawner,
}
use actinium_actor.StateMachine.{new, new_on, on_started}
use actinium_actor.Console.{
  ManagedWorker, MetaActor, CmdResponse, create_worker, destroy_worker, World, AnyActor, meta,
  worker, Reply, unit, types, Link, info_of, type_of, spawned, debug, idle,
}
use actinium_actor.Console.Worker.{event, WorkerSm, worker_handler, worker_started, after_hook}
use actinium_actor.Console.Meta.{
  notify_cmd, destroy, spawn_worker, handle_meta, new_info, add_info, register,
}
use actinium_actor.Console.Program.{program}

-- A message changes neither what the actors share nor the actors.
record Untouched (before after : Env types) : Type 0 where
  pub world : after.world ≡ before.world
  pub shared : after.shared ≡ before.shared

do_send-Untouched :
    (addr : Addr types) (msg : types.Msg) (env : Env types) → Untouched env (do_send addr msg env).0
unfolding do_send
do_send-Untouched addr msg env = record { world = ground arith; shared = ground arith }

-- The machine of a new worker.
abbrev pub fresh_worker : ℕ → WorkerSm
fresh_worker info = record {
  inner = record { info = info };
  current = 0;
  states = worker_handler.state_sequence;
}

-- What the creation of a worker leaves: `before` had the identifier, the cell and the map `m` of the
-- meta actor's worker thread.
pub record Created (name : Text) (idx tx : ℕ) (m : HashMap (ActorCell types))
    (before after : Env types) : Type 0 where
  pub registered :
      get after.world.registry before.shared.next_id
      ≡ some (record {
        addr = record { actor_id = before.shared.next_id; tx = tx; kind = 2 };
        info = before.world.next_info;
        name = name;
      })
  pub others :
      (a : ℕ)
      → (before.shared.next_id == a) ≡ false
      → get after.world.registry a ≡ get before.world.registry a
  pub running :
      after.shared.actor_maps
      ≡ set before.shared.actor_maps idx (
          insert before.shared.next_id
            (record { actor = worker (fresh_worker before.world.next_info); on_stop = 2 })
            m)
  pub info :
      info_of after.world before.world.next_info
      ≡ record { name = name; msg_count = 0; last_msg = []; current_state = debug idle }
  pub next_info : after.world.next_info ≡ before.world.next_info + 1
  pub other_infos :
      (k : ℕ)
      → (before.world.next_info == k) ≡ false
      → info_of after.world k ≡ info_of before.world k
  pub next : after.shared.next_id ≡ (before.shared.next_id + 1) % 2 ^ 64

module _ (lower : ℕ → Text) (order : HashMap ManagedWorker → List (ℕ × ManagedWorker)) where
  -- The meta actor is notified, and goes on as it is.
  record Notified (actor : MetaActor) (ctx : Context) (before : Env types)
      (r : Env types × End types (AnyActor × Reply)) : Type 0 where
    pub ends : r.1 ≡ finished (meta actor, unit) ctx
    pub world : r.0.world ≡ before.world
    pub shared : r.0.shared ≡ before.shared

  notify_cmd-Notified :
      (o : Option Link) (response : CmdResponse) (actor : MetaActor) (ctx : Context)
      (env : Env types)
      → Notified actor ctx env (exec (program lower order) (notify_cmd o response actor) ctx env)
  unfolding notify_cmd exec
  notify_cmd-Notified none response actor ctx env = record {
    ends = refl;
    world = refl;
    shared = refl;
  }
  notify_cmd-Notified (some l) response actor ctx env =
      let u = do_send-Untouched _ _ env in
      record { ends = refl; world = u.world; shared = u.shared }

  destroy-shared :
      (id : ℕ) (o : Option ManagedWorker) (actor : MetaActor) (ctx : Context) (env : Env types)
      → o ≡ get env.world.registry id
      → (a : ℕ)
      → ((exec (program lower order) (destroy id env.world o actor) ctx env).0.shared ≡ env.shared)
        × (get
              (exec (program lower order) (destroy id env.world o actor) ctx env).0.world.registry
              a
            ≡ (if id == a then none else get env.world.registry a))
        × ((exec (program lower order) (destroy id env.world o actor) ctx env).1
            ≡ finished (meta actor, unit) ctx)
  unfolding destroy exec
  destroy-shared id none actor ctx env e a =
      let n = notify_cmd-Notified actor.cmd_addr _ actor ctx env in
      (n.shared, ap (λ (w : World). get w.registry a) n.world ∙ missing, n.ends)
    where
      missing : get env.world.registry a ≡ (if id == a then none else get env.world.registry a)
      missing = ground arith
  destroy-shared id (some m) actor ctx env e a =
      let env' : Env types = record env {
        world = record env.world { registry = remove id env.world.registry };
      } in
      let n = notify_cmd-Notified actor.cmd_addr _ actor ctx env' in
      (
        n.shared,
        ap (λ (w : World). get w.registry a) n.world ∙ get-remove id env.world.registry a,
        n.ends,
      )

  -- Destroying a worker takes it out of the registry and leaves the other entries; the actors of the
  -- runtime stay as they are, the worker's own included. The meta actor goes on.
  pub handle_meta-destroy :
      (id : ℕ) (actor : MetaActor) (ctx : Context) (env : Env types) (a : ℕ)
      → ((exec (program lower order) (handle_meta actor (destroy_worker id)) ctx env).0.shared
          ≡ env.shared)
        × (get
              (exec
                (program lower order)
                (handle_meta actor (destroy_worker id))
                ctx
                env).0.world.registry
              a
            ≡ (if id == a then none else get env.world.registry a))
        × ((exec (program lower order) (handle_meta actor (destroy_worker id)) ctx env).1
            ≡ finished (meta actor, unit) ctx)
  unfolding handle_meta exec
  handle_meta-destroy id actor ctx env a =
      destroy-shared id (get env.world.registry id) actor ctx env refl a

  -- The world after the `started` of a worker: an entry in the log.
  abbrev logged_start : ℕ → ℕ → World → World
  logged_start id info w = (event (record { info = info }) "started" (w, id)).0

  worker_started-exec :
      (info : ℕ) (ctx : Context) (env : Env types)
      → exec (program lower order) (worker_started (fresh_worker info)) ctx env ≡ (
        record env { world = logged_start ctx.actor_id info env.world },
        finished (worker (fresh_worker info)) ctx,
      )
  unfolding worker_started after_hook on_started exec
  worker_started-exec info ctx env = refl

  abbrev placed : ℕ → ℕ → AnyActor → HashMap (ActorCell types) → Env types → Env types
  placed id idx child m env = record env {
    shared = record env.shared {
      actor_maps =
          set env.shared.actor_maps idx
            (insert id (record { actor = child; on_stop = type_of child }) m);
    };
  }

  start_child-placed :
      (id idx tx : ℕ) (child : AnyActor) (m : HashMap (ActorCell types)) (ctx : Context)
      (env : Env types)
      → get_elem? env.shared.actor_maps idx ≡ some m
      → get_elem? env.shared.msg_txs idx ≡ some tx
      → start_child (program lower order) id idx (env, finished child ctx) ≡ (
        placed id idx child m env,
        returned (record { actor_id = id; tx = tx; kind = type_of child }),
      )
  unfolding start_child insert_child inserted spawn_actor_direct put_cell
  start_child-placed id idx tx child m ctx env maps txs = rw (maps, txs)

  -- The environment in which the command actor is notified.
  abbrev created : Text → ℕ → ℕ → HashMap (ActorCell types) → Env types → Env types
  created name idx tx m env =
      let id = env.shared.next_id in
      let info = env.world.next_info in
      let started : Env types = record env {
        world = logged_start id info (add_info name env.world);
        shared = (allocate_id env.shared).1;
      } in
      let running = placed id idx (worker (fresh_worker info)) m started in
      record running {
        world = register (record { actor_id = id; tx = tx; kind = 2 }) info name running.world;
      }

  handle_meta-created :
      (name : Text) (actor : MetaActor) (ctx : Context) (env : Env types)
      (m : HashMap (ActorCell types)) (tx : ℕ)
      → ctx.spawn_shared ≡ true
      → get_elem? env.shared.actor_maps ctx.worker_idx ≡ some m
      → get_elem? env.shared.msg_txs ctx.worker_idx ≡ some tx
      → exec (program lower order) (handle_meta actor (create_worker name)) ctx env
        ≡ exec
            (program lower order)
            (notify_cmd actor.cmd_addr (spawned env.shared.next_id name) actor)
            ctx
            (created name ctx.worker_idx tx m env)
  unfolding handle_meta spawn_worker new new_on exec spawn_child after_spawn allocate_id
      with_spawner
  handle_meta-created name actor ctx env m tx can maps txs =
      let id = env.shared.next_id in
      let info = env.world.next_info in
      let begun : Env types = record env {
        world = add_info name env.world;
        shared = (allocate_id env.shared).1;
      } in
      let started : Env types = record begun {
        world = logged_start id info (add_info name env.world);
      } in
      rw can (
        rw (worker_started-exec info (with_spawner id ctx.worker_idx) begun) (
          rw
            (start_child-placed id ctx.worker_idx tx (worker (fresh_worker info)) m
              (with_spawner id ctx.worker_idx) started maps txs)
            refl))

  info_of-created :
      (name : Text) (idx tx : ℕ) (m : HashMap (ActorCell types)) (env : Env types)
      → info_of (created name idx tx m env).world env.world.next_info ≡ new_info name
  unfolding info_of
  info_of-created name idx tx m env =
      ground
        (arith, get-insert env.world.next_info (new_info name) env.world.infos env.world.next_info)

  other_infos-created :
      (name : Text) (idx tx : ℕ) (m : HashMap (ActorCell types)) (env : Env types) (k : ℕ)
      → (env.world.next_info == k) ≡ false
      → info_of (created name idx tx m env).world k ≡ info_of env.world k
  unfolding info_of
  other_infos-created name idx tx m env k h =
      ground (arith, get-insert env.world.next_info (new_info name) env.world.infos k)

  -- Creating a worker, where the worker thread of the meta actor has a map and a channel: the new actor
  -- is in that map, a fresh machine under the next identifier with the next info, which counts no
  -- message, has an empty last message and the state Idle, and the worker is registered under the same
  -- identifier with its address and its name; the other infos and the other entries of the registry
  -- stay, and neither the identifier nor the info is the next one any more.
  pub handle_meta-Created :
      (name : Text) (actor : MetaActor) (ctx : Context) (env : Env types)
      (m : HashMap (ActorCell types)) (tx : ℕ)
      → ctx.spawn_shared ≡ true
      → get_elem? env.shared.actor_maps ctx.worker_idx ≡ some m
      → get_elem? env.shared.msg_txs ctx.worker_idx ≡ some tx
      → Created name ctx.worker_idx tx m env
          (exec (program lower order) (handle_meta actor (create_worker name)) ctx env).0
  unfolding allocate_id
  handle_meta-Created name actor ctx env m tx can maps txs =
      let id = env.shared.next_id in
      let entry : ManagedWorker = record {
        addr = record { actor_id = id; tx = tx; kind = 2 };
        info = env.world.next_info;
        name = name;
      } in
      let n =
        notify_cmd-Notified actor.cmd_addr (spawned id name) actor ctx
          (created name ctx.worker_idx tx m env) in
      let insertion = get-insert id entry env.world.registry in
      rw (handle_meta-created name actor ctx env m tx can maps txs) (record {
        registered = rw (n.world) (ground (arith, insertion id));
        others = λ a h. rw (n.world) (ground (arith, insertion a));
        running = rw (n.shared) refl;
        info = rw (n.world) (info_of-created name ctx.worker_idx tx m env);
        next_info = rw (n.world) refl;
        other_infos = λ k h.
            ap (λ w. info_of w k) n.world ∙ other_infos-created name ctx.worker_idx tx m env k h;
        next = rw (n.shared) refl;
      })
