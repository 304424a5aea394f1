-- ===== src/Demo/Counter.antt =====
-- main.rs: the counter and the printer of the demonstration on `ActorSystem`.
use native.Mathlib.Decide.{ℕ_discrete}
use actinium_actor.Prelude.{
  ℕ, suc, ◌+◌, ◌%◌, ◌^◌, ◌<◌, ◌≡◌, Option, some, List, [], ◌∷◌, length, arith,
}
use actinium_actor.HashMap.{get, insert}
use actinium_actor.HashMap.Laws.{get-insert}
use actinium_actor.Outcome.{Outcome, returned, Returns, Returns-map}
use actinium_actor.Text.{Text}
use actinium_actor.Actor.{Types, Code, Script, done, panics, sent}
use actinium_actor.Actor.Store.{Mail, ActorCell, Env, send_reply, receive_reply}
use actinium_actor.Actor.Exec.{new, is_running, exec}
use actinium_actor.Actor.Call.{type_mismatch, call_dispatch, dispatch_as, finish_handle}
use actinium_actor.System.{ActorSystem, dispatch, dispatch_to, after_handle, and_then}

-- The actors of the program: `CounterActor` with its count, a `usize`, and `PrinterActor`.
pub data AnyActor : Type 0 where
  counter : ℕ → AnyActor
  printer : AnyActor

pub data AnyMessage : Type 0 where
  increment get_count : AnyMessage
  print : Text → AnyMessage

pub data Reply : Type 0 where
  number : ℕ → Reply
  nothing : Reply

abbrev pub types : Types
types = record { World = Unit {0}; Any = AnyActor; Kind = ℕ; Msg = AnyMessage; Val = Reply }

-- 0 for `CounterActor`, 1 for `PrinterActor`.
abbrev pub type_of : AnyActor → ℕ
type_of (counter n) = 0
type_of printer = 1

-- The handlers; a message that its actor has no handler for does not get here.
abbrev pub handle : AnyActor → AnyMessage → Script types (AnyActor × Reply)
handle (counter count) increment =
    done (counter ((count + 1) % 2 ^ 64), number ((count + 1) % 2 ^ 64))
handle (counter count) get_count = done (counter count, number count)
handle printer (print s) = done (printer, nothing)
handle actor _ = panics actor type_mismatch

abbrev pub program : Code
program = record {
  types = types;
  type_of = type_of;
  kind_discrete = ℕ_discrete;
  started = λ actor. done actor;
  stopped = λ actor. done actor;
  handle = handle;
}

abbrev pub cell_of : AnyActor → ActorCell types
cell_of actor = record { actor = actor; on_stop = type_of actor }

-- A message to a counter.
abbrev pub to_counter : ℕ → AnyMessage → Option ℕ → Mail types
to_counter id msg reply = record {
  actor_id = id;
  dispatch = record { kind = 0; msg = msg; reply = reply };
}

module _ (id n : ℕ) (sys : ActorSystem types) (env : Env types) where
  dispatch-increment :
      (reply : Option ℕ)
      → get sys.actors id ≡ some (cell_of (counter n))
      → dispatch program (to_counter id increment reply) sys env ≡ (
        send_reply reply (number ((n + 1) % 2 ^ 64)) env,
        returned
            (record sys { actors = insert id (cell_of (counter ((n + 1) % 2 ^ 64))) sys.actors }),
      )
  unfolding dispatch dispatch_to after_handle call_dispatch dispatch_as finish_handle exec
      is_running new ℕ_discrete
  dispatch-increment reply found = rw found

-- The messages of the sender's loop, one after the other; each has a channel for its reply.
unfoldable pub increment_all :
    ℕ → List (Option ℕ) → ActorSystem types → Env types → Env types × Outcome (ActorSystem types)
increment_all id [] sys env = (env, returned sys)
increment_all id (reply ∷ replies) sys env =
    and_then program (dispatch program (to_counter id increment reply) sys env)
      (increment_all id replies)

none_more : (n : ℕ) → n + 0 ≡ n
none_more n = omega arith

wrap : (n k : ℕ) → n + suc k < 2 ^ 64 → (n + 1) % 2 ^ 64 ≡ n + 1
wrap n k h = omega arith

one_more : (n k : ℕ) → n + 1 + k ≡ n + suc k
one_more n k = omega arith

counter_after :
    (id n : ℕ) (replies : List (Option ℕ)) (sys : ActorSystem types) (env : Env types)
    → get sys.actors id ≡ some (cell_of (counter n))
    → n + length replies < 2 ^ 64
    → Returns
        (increment_all id replies sys env).1
        (λ sys'. get sys'.actors id ≡ some (cell_of (counter (n + length replies))))
unfolding increment_all
counter_after id n [] sys env found lt = rw (none_more n) found
counter_after id n (reply ∷ replies) sys env found lt =
    let cell = cell_of (counter (n + 1)) in
    let sys' : ActorSystem types = record sys { actors = insert id cell sys.actors } in
    let there : get sys'.actors id ≡ some cell = ground (arith, get-insert id cell sys.actors id) in
    rw (dispatch-increment id n sys env reply found, wrap n (length replies) lt)
      (rw (← one_more n (length replies)) (
        counter_after id (n + 1) replies sys' (send_reply reply (number (n + 1)) env) there
          (omega (arith, lt))))

dispatch-get_count :
    (id n k : ℕ) (sys : ActorSystem types) (env : Env types)
    → get sys.actors id ≡ some (cell_of (counter n))
    → receive_reply k (dispatch program (to_counter id get_count (some k)) sys env).0
      ≡ some (sent (number n))
unfolding dispatch dispatch_to after_handle call_dispatch dispatch_as finish_handle exec is_running
    new ℕ_discrete send_reply receive_reply
dispatch-get_count id n k sys env found =
    rw found (ground (arith, get-insert k (sent (number n)) env.replies k))

-- A counter at `n` that is sent any increments, fewer than take it to 2^64, and then asked for its
-- count answers with `n` and the number of increments; no dispatch of them panics.
pub dispatch-increment_all :
    (id n k : ℕ) (replies : List (Option ℕ)) (sys : ActorSystem types) (env env' : Env types)
    → get sys.actors id ≡ some (cell_of (counter n))
    → n + length replies < 2 ^ 64
    → Returns (increment_all id replies sys env).1 (λ sys'.
      receive_reply k (dispatch program (to_counter id get_count (some k)) sys' env').0
      ≡ some (sent (number (n + length replies))))
dispatch-increment_all id n k replies sys env env' found lt =
    Returns-map (increment_all id replies sys env).1 _ _
      (counter_after id n replies sys env found lt)
      (λ sys' there. dispatch-get_count id (n + length replies) k sys' env' there)
