-- ===== src/Runtime/Admission.antt =====
-- src/runtime.rs: what `Runtime::spawn` waits for.
use actinium_actor.Prelude.{
  ℕ, ◌<◌, ◌≡◌, sym, ap, ◌∙◌, ◌++◌, true, false, some, List, [], contains, get_elem?, get_elem?-set,
}
use actinium_actor.HashMap.{get}
use actinium_actor.Outcome.{returned}
use actinium_actor.Actor.{Types, Code, Addr}
use actinium_actor.Actor.Store.{Mail, ActorCell, Env}
use actinium_actor.Worker.{Worker, ControlMsg, actor_map, serve, iteration}
use actinium_actor.Worker.Run.{has_shutdown}
use actinium_actor.Worker.Held.{Held}
use actinium_actor.Worker.Admission.{
  admit, taken, ids, admit-among, has_shutdown-among, contains-tokens, iteration-admit,
}
use actinium_actor.Runtime.{Runtime, control, spawn}
use actinium_actor.Runtime.Placement.{zero_plus}
use actinium_actor.Runtime.Threads.{Placed-at, Quiet-at, Numbered-at}
use actinium_actor.Runtime.Sent.{Sent, spawn-Sent, at_result}
use actinium_actor.Runtime.Steps.{Alive}
use actinium_actor.Runtime.Sound.{Sound, spawn-Ensures}

-- The worker with more control messages.
abbrev pub behind : {t : Types} → List (ControlMsg t) → Worker t → Worker t
behind more w = record w { control_rx = w.control_rx ++ more }

-- What the address that a spawn gives leads to: a worker of the runtime with the address's channel.
-- Once `more` has come to its control channel, its next iteration, on the shared state `env`,
-- confirms the spawn and has the actor, of the address's type, in its map before it serves a message.
pub record Admitted (c : Code) (order : List ℕ → List ℕ) (late : List (Mail c.types))
    (more : List (ControlMsg c.types)) (env : Env c.types) (rt : Runtime c.types)
    (addr : Addr c.types) : Type 0 where
  pub i : ℕ
  pub w : Worker c.types
  pub cell : ActorCell c.types
  pub at : get_elem? rt.handles i ≡ some w
  pub index : w.worker_idx ≡ i
  pub channel : addr.tx ≡ w.msg_rx
  pub kind : (c.type_of cell.actor ≡ addr.kind) × (cell.on_stop ≡ addr.kind)
  pub confirms : contains (taken (behind more w)).confirmed addr.actor_id ≡ true
  pub present :
      get
        (actor_map (behind more w) (admit (behind more w).control_rx (behind more w) env))
        addr.actor_id
      ≡ some cell
  pub iterates :
      iteration c order late (behind more w) env
      ≡ serve c order late
          (taken (behind more w))
          (admit (behind more w).control_rx (behind more w) env)

module _ (c : Code) (order : List ℕ → List ℕ) (txs : List ℕ) (n : ℕ) where
  open c use {types, Any}

  -- A spawn that returns, on a sound runtime that has not been shut down: whatever the shared state has
  -- come to by the next iteration of the worker, and whatever spawns of other actors have come to the
  -- worker's control channel behind it, that iteration confirms the spawn and then serves with the
  -- actor, of the address's type, in its map. The worker has the channel of the address.
  pub spawn-Admitted :
      (actor : Any) (late : List (Mail types)) (more : List (ControlMsg types))
      (rt rt' : Runtime types) (env env' now : Env types) (addr : Addr types)
      → 0 < n
      → Alive txs n rt env
      → spawn c actor rt env ≡ (env', returned (rt', addr))
      → Held txs n [] now
      → has_shutdown more ≡ false
      → contains (ids more) addr.actor_id ≡ false
      → Admitted c order late more now rt' addr
  spawn-Admitted actor late more rt rt' env env' now addr pos_ alive eq held open_ other =
      let s =
        at_result c (λ x e. Sent c rt e x) (spawn c actor rt env) env' (rt', addr) eq
          (spawn-Sent c actor rt env) in
      let after =
        at_result c (λ x e. Sound txs n x.0 e × (contains txs x.1.tx ≡ true)) (spawn c actor rt env)
          env' (rt', addr) eq (spawn-Ensures c txs n actor rt env pos_ alive.sound) in
      let id = addr.actor_id in
      let msg : ControlMsg types = ControlMsg.spawn_actor id s.cell id in
      let no_ = Quiet-at rt.handles s.i s.w s.at alive.quiet in
      let (_, fits, _) = Placed-at txs n rt.handles s.i s.w s.at alive.sound.placed in
      let (rx, idx) = Numbered-at txs 0 s.i rt.handles s.w s.at alive.numbered in
      let in_txs : get_elem? txs s.i ≡ some addr.tx =
        ap (λ l. get_elem? l s.i) (sym after.0.shared.senders) ∙ s.tx in
      let same_tx : get_elem? txs s.i ≡ some s.w.msg_rx =
        ap (λ k. get_elem? txs k) (sym (zero_plus s.i)) ∙ rx in
      unfold control in
      record {
        i = s.i;
        w = control msg s.w;
        cell = s.cell;
        at =
            ap (λ (l : List (Worker types)). get_elem? l s.i) s.handles
            ∙ get_elem?-set rt.handles s.i s.w (control msg s.w) s.at;
        index = idx ∙ zero_plus s.i;
        channel = cc;
        kind = (s.kind, s.on_stop);
        confirms = contains-tokens s.w.control_rx more id s.cell id s.w.confirmed no_;
        present =
            admit-among s.w.control_rx more id s.cell id (behind more (control msg s.w)) now no_
              other (rw (held.maps) fits);
        iterates =
            iteration-admit c order late (behind more (control msg s.w)) now
              (has_shutdown-among s.w.control_rx more id s.cell id no_ open_);
      }
