-- ===== src/Actor/Store.antt =====
-- src/addr.rs, src/spawner.rs and the channels of `std::sync::mpsc` as the crate uses them: the
-- state that outlives a call, passed from step to step.
use actinium_actor.Prelude.{
  ℕ, ◌+◌, ◌%◌, ◌^◌, Bool, true, false, Option, none, some, List, [], ◌∷◌, ◌++◌, if◌then◌else◌,
}
use actinium_actor.HashMap.{HashMap, get, insert}
use actinium_actor.Envelope.{Envelope}
use actinium_actor.Actor.{
  Types, actor_not_running, runtime_shutdown, SendResult, sent, failed, Addr,
}

-- The closure of an envelope, by what it captures: the type `A` that it casts to, the message, and
-- for `send` the channel of the reply.
pub record Dispatch (t : Types) : Type 0 where
  pub kind : t.Kind
  pub msg : t.Msg
  pub reply : Option ℕ

abbrev pub Mail : Types → Type 0
Mail t = Envelope (Dispatch t)

-- A channel: what was sent and not received, whether a client holds an address with a sender of it,
-- and whether its receiver is there.
pub record Channel (t : Types) : Type 0 where
  pub queue : List (Mail t)
  pub clients : Bool
  pub receiver : Bool

-- `on_stop` is a closure that casts to the type it names and calls `stopped`.
pub record ActorCell (t : Types) : Type 0 where
  pub actor : t.Any
  pub on_stop : t.Kind

pub record SpawnShared (t : Types) : Type 0 where
  pub control_txs : List ℕ
  pub msg_txs : List ℕ
  pub actor_maps : List (HashMap (ActorCell t))
  pub next_id : ℕ
  pub next_worker : ℕ
  pub num_workers : ℕ
  pub running : Bool

pub record Env (t : Types) : Type 0 where
  pub world : t.World
  pub channels : HashMap (Channel t)
  -- what `recv` gives on the channels of replies
  pub replies : HashMap (SendResult t.Val)
  pub next_reply : ℕ
  pub shared : SpawnShared t

module _ {t : Types} where
  -- A dropped envelope drops the sender of its reply: `recv` on that channel fails.
  unfoldable pub drop_reply : Option ℕ → Env t → Env t
  drop_reply none env = env
  drop_reply (some k) env = record env { replies = insert k (failed actor_not_running) env.replies }

  unfoldable pub drop_envelope : Mail t → Env t → Env t
  unfolding drop_reply
  drop_envelope e env = drop_reply e.dispatch.reply env

  unfoldable pub send_reply : Option ℕ → t.Val → Env t → Env t
  send_reply none v env = env
  send_reply (some k) v env = record env { replies = insert k (sent v) env.replies }

  unfoldable pub push : ℕ → Channel t → Mail t → Env t → Env t
  push k ch e env = record env {
    channels = insert k (record ch { queue = ch.queue ++ e ∷ [] }) env.channels;
  }

  -- `Sender::send`: an error gives the envelope back, which is dropped.
  unfoldable pub channel_send : ℕ → Mail t → Env t → Env t × Bool
  unfolding drop_envelope push
  channel_send k e env = elim (get env.channels k) [
    | none ↦ (drop_envelope e env, false)
    | some ch ↦ if ch.receiver then (push k ch e env, true) else (drop_envelope e env, false)
  ]

  -- `Addr::do_send`
  unfoldable pub do_send : Addr t → t.Msg → Env t → Env t × SendResult (Unit {0})
  unfolding channel_send
  do_send addr msg env =
      let envelope : Mail t = record {
        actor_id = addr.actor_id;
        dispatch = record { kind = addr.kind; msg = msg; reply = none };
      } in
      let (env', delivered) = channel_send addr.tx envelope env in
      (env', if delivered then sent tt else failed runtime_shutdown)

  -- `Addr::send` up to the wait: the reply channel on which it waits, or the error.
  unfoldable pub send : Addr t → t.Msg → Env t → Env t × SendResult ℕ
  unfolding channel_send
  send addr msg env =
      let k = env.next_reply in
      let envelope : Mail t = record {
        actor_id = addr.actor_id;
        dispatch = record { kind = addr.kind; msg = msg; reply = some k };
      } in
      let (env', delivered) = channel_send addr.tx envelope (record env { next_reply = k + 1 }) in
      (env', if delivered then sent k else failed runtime_shutdown)

  -- The wait of `Addr::send`: `none` while it blocks.
  unfoldable pub receive_reply : ℕ → Env t → Option (SendResult t.Val)
  receive_reply k env = get env.replies k

  -- `SpawnShared::allocate_id`: `fetch_add` on an `AtomicU64` returns the old value, and wraps.
  unfoldable pub allocate_id : SpawnShared t → ℕ × SpawnShared t
  allocate_id s = (s.next_id, record s { next_id = (s.next_id + 1) % 2 ^ 64 })

  -- `SpawnShared::pick_worker`, with a `usize` of 64 bits.
  unfoldable pub pick_worker : SpawnShared t → ℕ × SpawnShared t
  pick_worker s =
      (s.next_worker % s.num_workers, record s { next_worker = (s.next_worker + 1) % 2 ^ 64 })
