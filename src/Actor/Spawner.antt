-- ===== src/Actor/Spawner.antt =====
-- src/spawner.rs: the actor maps of the workers.
use Prim.Native.String.{String}
use actinium_actor.Prelude.{ℕ, Option, none, some, get_elem?, set}
use actinium_actor.HashMap.{HashMap, get, insert, remove}
use actinium_actor.Outcome.{Outcome, returned, panicked}
use actinium_actor.Actor.{Types}
use actinium_actor.Actor.Store.{ActorCell, SpawnShared}

abbrev pub out_of_bounds : String
out_of_bounds = "index out of bounds"

module _ {t : Types} where
  unfoldable pub put_cell :
      ℕ
      → ℕ
      → ActorCell t
      → SpawnShared t
      → Option (HashMap (ActorCell t))
      → Option ℕ
      → Outcome (ℕ × SpawnShared t)
  put_cell worker_idx id cell s none tx = panicked out_of_bounds
  put_cell worker_idx id cell s (some m) none = panicked out_of_bounds
  put_cell worker_idx id cell s (some m) (some tx) =
      returned (tx, record s { actor_maps = set s.actor_maps worker_idx (insert id cell m) })

  -- Inserts the actor into the worker's map and gives a sender of the worker's channel.
  unfoldable pub spawn_actor_direct :
      ℕ → ℕ → ActorCell t → SpawnShared t → Outcome (ℕ × SpawnShared t)
  unfolding put_cell
  spawn_actor_direct id worker_idx cell s =
      put_cell worker_idx id cell s (get_elem? s.actor_maps worker_idx)
        (get_elem? s.msg_txs worker_idx)

  unfoldable pub take_cell :
      ℕ
      → ℕ
      → SpawnShared t
      → Option (HashMap (ActorCell t))
      → Outcome (Option (ActorCell t) × SpawnShared t)
  take_cell actor_id worker_idx s none = panicked out_of_bounds
  take_cell actor_id worker_idx s (some m) =
      returned
        (get m actor_id, record s { actor_maps = set s.actor_maps worker_idx (remove actor_id m) })

  unfoldable pub remove_actor :
      ℕ → ℕ → SpawnShared t → Outcome (Option (ActorCell t) × SpawnShared t)
  unfolding take_cell
  remove_actor actor_id worker_idx s =
      take_cell actor_id worker_idx s (get_elem? s.actor_maps worker_idx)
