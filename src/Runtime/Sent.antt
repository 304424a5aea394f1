-- ===== src/Runtime/Sent.antt =====
-- src/runtime.rs: what a spawn sends to a worker.
use actinium_actor.Prelude.{
  ℕ, ◌≡◌, refl, subst, Option, none, some, get_elem?, set, false, Bool-cases, inl, inr,
}
use actinium_actor.Outcome.{Outcome, returned, Ensures}
use actinium_actor.Actor.{Code, Addr}
use actinium_actor.Actor.Store.{ActorCell, Env}
use actinium_actor.Actor.Exec.{End, finished, unwound}
use actinium_actor.Worker.{Worker, ControlMsg}
use actinium_actor.Worker.Run.{has_shutdown}
use actinium_actor.Runtime.{
  Runtime, control, send_control, spawn_actor_remote, address, spawn_started, spawn,
}

-- What a spawn sends: worker `i` gets the control message for the actor that has started, and the
-- address has the worker's channel and the actor's type.
pub record Sent (c : Code) (rt : Runtime c.types) (env : Env c.types)
    (x : Runtime c.types × Addr c.types) : Type 0 where
  pub i : ℕ
  pub w : Worker c.types
  pub cell : ActorCell c.types
  pub at : get_elem? rt.handles i ≡ some w
  pub waits : has_shutdown w.control_rx ≡ false
  pub tx : get_elem? env.shared.msg_txs i ≡ some x.1.tx
  pub kind : c.type_of cell.actor ≡ x.1.kind
  pub on_stop : cell.on_stop ≡ x.1.kind
  pub handles :
      x.0.handles
      ≡ set rt.handles i (control (ControlMsg.spawn_actor x.1.actor_id cell x.1.actor_id) w)

module _ (c : Code) where
  open c use {types, Any}

  spawn_started-Sent :
      (id i : ℕ) (rt : Runtime types) (r : Env types × End types Any)
      → Ensures (spawn_started c id i rt r).1 (Sent c rt (spawn_started c id i rt r).0)
  unfolding spawn_started spawn_actor_remote address send_control
  spawn_started-Sent id i rt (env, unwound _ m) = tt
  spawn_started-Sent id i rt (env, finished actor _) =
      go (get_elem? rt.handles i) (get_elem? env.shared.msg_txs i) refl refl
    where
      started : ActorCell types
      started = record { actor = actor; on_stop = c.type_of actor }

      go :
          (o : Option (Worker types)) (tx : Option ℕ)
          → get_elem? rt.handles i ≡ o
          → get_elem? env.shared.msg_txs i ≡ tx
          → let r =
              address c id
                (c.type_of actor)
                env
                (send_control i (ControlMsg.spawn_actor id started id) rt.handles o tx) in
            Ensures r.1 (Sent c rt r.0)
      go none tx at at' = tt
      go (some w) none at at' = tt
      go (some w) (some tx) at at' = elim (Bool-cases (has_shutdown w.control_rx)) [
        | inl shut ↦ rw shut tt
        | inr open_ ↦ rw open_ (record {
          i = i;
          w = w;
          cell = started;
          at = at;
          waits = open_;
          tx = at';
          kind = refl;
          on_stop = refl;
          handles = refl;
        })
      ]

  pub spawn-Sent :
      (actor : Any) (rt : Runtime types) (env : Env types)
      → Ensures (spawn c actor rt env).1 (Sent c rt (spawn c actor rt env).0)
  unfolding spawn
  spawn-Sent actor rt env = spawn_started-Sent _ _ rt _

  pub at_result :
      {X : Type 0} (P : X → Env types → Type 0) (r : Env types × Outcome X) (env : Env types)
      (x : X)
      → r ≡ (env, returned x)
      → Ensures r.1 (λ y. P y r.0)
      → P x env
  at_result {X = X} P r env x eq h =
      subst (λ (y : Env types × Outcome X). Ensures y.1 (λ z. P z y.0)) eq h
