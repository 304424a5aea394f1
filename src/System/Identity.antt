-- ===== src/System/Identity.antt =====
-- `spawn`: a new identifier for every actor.
use actinium_actor.Prelude.{
  ℕ, ◌+◌, ◌^◌, ◌≤◌, ◌<◌, ◌≡◌, refl, Option, none, some, arith, false, ◌==◌,
}
use actinium_actor.HashMap.{get}
use actinium_actor.HashMap.Laws.{get-insert}
use actinium_actor.Outcome.{Ensures}
use actinium_actor.Actor.{Types, Code, Addr}
use actinium_actor.Actor.Store.{ActorCell, Env}
use actinium_actor.Actor.Exec.{End, finished, unwound}
use actinium_actor.System.{ActorSystem, new_system, spawn, spawn_on, insert_started}

-- No actor has an identifier that is still to be given.
abbrev pub IsFresh : {t : Types} → ActorSystem t → Type 0
IsFresh sys = (a : ℕ) → sys.next_id ≤ a → get sys.actors a ≡ none

pub new_system-IsFresh : {t : Types} (channel : ℕ) → IsFresh {t = t} (new_system channel)
unfolding new_system get
new_system-IsFresh channel a h = refl

module _ (c : Code) where
  open c use {types, Any}

  -- What a spawn that returns has done.
  pub record Spawned (tx : ℕ) (before after : ActorSystem types) (addr : Addr types) : Type 0 where
    pub fresh : IsFresh after
    pub new_id : get before.actors addr.actor_id ≡ none
    pub channel : addr.tx ≡ tx
    pub registered :
        (cell : ActorCell types) × (get after.actors addr.actor_id ≡ some cell)
        × (c.type_of cell.actor ≡ addr.kind)
        × (cell.on_stop ≡ addr.kind)
    pub others : (a : ℕ) → (addr.actor_id == a) ≡ false → get after.actors a ≡ get before.actors a

  insert_started-Spawned :
      (tx : ℕ) (sys : ActorSystem types) (r : Env types × End types Any)
      → IsFresh sys
      → sys.next_id + 1 < 2 ^ 64
      → Ensures (insert_started c sys.next_id tx sys r).1 (λ x. Spawned tx sys x.0 x.1)
  unfolding insert_started
  insert_started-Spawned tx sys (env, unwound _ m) f lt = tt
  insert_started-Spawned tx sys (env, finished actor ctx) f lt =
      let cell : ActorCell types = record { actor = actor; on_stop = c.type_of actor } in
      record {
        fresh = λ a h. ground (arith, get-insert sys.next_id cell sys.actors a, f a);
        new_id = f sys.next_id (omega arith);
        channel = refl;
        registered =
            (cell, ground (arith, get-insert sys.next_id cell sys.actors sys.next_id), refl, refl);
        others = λ a h. ground (arith, get-insert sys.next_id cell sys.actors a);
      }

  spawn_on-Spawned :
      (actor : Any) (o : Option ℕ) (tx : ℕ) (sys : ActorSystem types) (env : Env types)
      → o ≡ some tx
      → IsFresh sys
      → sys.next_id + 1 < 2 ^ 64
      → Ensures (spawn_on c o actor sys env).1 (λ x. Spawned tx sys x.0 x.1)
  unfolding spawn_on
  spawn_on-Spawned actor none tx sys env e f lt = cc
  spawn_on-Spawned actor (some k) tx sys env e f lt =
      let same : k ≡ tx = cc in rw same (insert_started-Spawned tx sys _ f lt)

  -- While no actor has an identifier that is still to be given, and 2^64 is not reached: a spawn that
  -- returns gives an identifier that no actor has, under which the actor is registered with its type,
  -- touches no other actor, and leaves the identifiers still to be given free.
  pub spawn-Spawned :
      (actor : Any) (tx : ℕ) (sys : ActorSystem types) (env : Env types)
      → sys.tx ≡ some tx
      → IsFresh sys
      → sys.next_id + 1 < 2 ^ 64
      → Ensures (spawn c actor sys env).1 (λ x. Spawned tx sys x.0 x.1)
  unfolding spawn
  spawn-Spawned actor tx sys env open_channel f lt =
      spawn_on-Spawned actor sys.tx tx sys env open_channel f lt
