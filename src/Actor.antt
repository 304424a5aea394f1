-- ===== src/Actor.antt =====
-- src/actor.rs, src/addr.rs, src/envelope.rs, src/context.rs, src/spawner.rs: the data that the
-- runtimes share, and what an actor's own code may do.
-- The actors are the crate's user's code. A hook or a handler is a `Script`: the calls that it makes
-- of the crate's interface, in order, each with what it does with the result.
use Prim.Native.String.{String}
use actinium_actor.Prelude.{ℕ, Bool, Option, List}
pub mod Store
pub mod Exec
pub mod Call
pub mod Frame
pub mod Replies
pub mod Spawner
pub mod Silent
use actinium_actor.HashMap.{HashMap}
use actinium_actor.Envelope.{Envelope}

-- The types of the user's program: what its actors share outside the crate, its boxed actors, their
-- types, its messages and their results.
pub record Types : Type 1 where
  pub World : Type 0
  pub Any : Type 0
  pub Kind : Type 0
  pub Msg : Type 0
  pub Val : Type 0

pub data SendError : Type 0 where
  actor_not_running runtime_shutdown : SendError

pub data SendResult (A : Type 0) : Type 0 where
  sent : A → SendResult A
  failed : SendError → SendResult A

-- `Addr<A>`: `kind` is the type `A`, and `tx` names the channel of the sender.
pub record Addr (t : Types) : Type 0 where
  pub actor_id : ℕ
  pub tx : ℕ
  pub kind : t.Kind

-- The calls that a hook or a handler makes, `Context::notify`, `stop` and `spawn` among them. A send
-- that waits for its answer is not one of them.
pub data Script (t : Types) : Type 0 → Type 1 where
  -- the end, with the result
  done : {R : Type 0} → R → Script t R
  -- a panic, with the actor as it stands
  panics : {R : Type 0} → t.Any → String → Script t R
  -- `ctx.stop()`
  stop : {R : Type 0} → Script t R → Script t R
  -- `ctx.id()`
  self_id : {R : Type 0} → (ℕ → Script t R) → Script t R
  -- `addr.do_send(msg)`, of which `ctx.notify(addr, msg)` drops the result
  do_send : {R : Type 0} → Addr t → t.Msg → (SendResult (Unit {0}) → Script t R) → Script t R
  -- `ctx.spawn(child)`: the actor that calls it as it stands, and the child's `started`
  spawn : {R : Type 0} → t.Any → Script t t.Any → (Addr t → Script t R) → Script t R
  -- a read and a write of what the actors share
  read : {R : Type 0} → (t.World → Script t R) → Script t R
  write : {R : Type 0} → t.World → Script t R → Script t R

-- The user's program. A handler returns the actor after it and the result for the sender.
pub record Code : Type 1 where
  pub types : Types
  pub open types use *
  pub type_of : Any → Kind
  pub kind_discrete : Discrete Kind
  pub started : Any → Script types Any
  pub stopped : Any → Script types Any
  pub handle : Any → Msg → Script types (Any × Val)
