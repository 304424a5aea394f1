-- ===== src/Console/Worker.antt =====
-- examples/console.rs: `WorkerActor`, a state machine that records the messages it gets.
use Prim.Native.String.{String}
use actinium_actor.Prelude.{ℕ, ◌+◌, ◌%◌, ◌^◌, [], ◌∷◌, ◌++◌}
use actinium_actor.HashMap.{insert}
use actinium_actor.ActorId.{display}
use actinium_actor.Outcome.{Outcome, returned, panicked}
use actinium_actor.Text.{Text, text, show}
use actinium_actor.Actor.{Script, done, panics, self_id, read, write}
use actinium_actor.StateMachine.{StateHandler, StateMachine, handle, on_started, on_stopped}
use actinium_actor.Console.{
  WorkerState, idle, receiving, processing, debug, WorkerInfo, WorkerActor, World, AnyActor, worker,
  Reply, unit, types, push_log, info_of,
}

-- What a handler of a worker works on: the shared cells, and the identifier of its context.
abbrev pub Shared : Type 0
Shared = World × ℕ

abbrev pub event : WorkerActor → String → Shared → Shared
event actor what (w, id) = (
  push_log
      (text "["
        ++ display id
        ++ text "] Worker '"
        ++ (info_of w actor.info).name
        ++ text "' "
        ++ text what)
      w,
  id,
)

abbrev pub recorded : WorkerState → Text → WorkerInfo → WorkerInfo
recorded state msg info = record info {
  msg_count = (info.msg_count + 1) % 2 ^ 64;
  last_msg = msg;
  current_state = debug state;
}

abbrev pub entry : ℕ → WorkerState → Text → WorkerInfo → Text
entry id state msg info =
    text "["
    ++ display id
    ++ text "] '"
    ++ info.name
    ++ text "' received in "
    ++ debug state
    ++ text " (#"
    ++ show info.msg_count
    ++ text "): "
    ++ msg

unfoldable pub handle_in_state :
    ℕ → WorkerState → Text → WorkerActor → Shared → Outcome (WorkerActor × Reply × Shared)
handle_in_state idx state msg actor (w, id) =
    let info = recorded state msg (info_of w actor.info) in
    returned (
      actor,
      unit,
      (
        push_log (entry id state msg info) (record w { infos = insert actor.info info w.infos }),
        id,
      ),
    )

abbrev pub worker_handler : StateHandler WorkerActor Text WorkerState Reply Shared
worker_handler = record {
  initial_state = idle;
  state_sequence = idle ∷ receiving ∷ processing ∷ [];
  handle_in_state = handle_in_state;
  started = λ actor s. returned (actor, event actor "started" s);
  stopped = λ actor s. returned (actor, event actor "stopped" s);
}

abbrev pub WorkerSm : Type 0
WorkerSm = StateMachine WorkerActor WorkerState

unfoldable pub after_handle :
    WorkerSm → Outcome (WorkerSm × Reply × Shared) → Script types (AnyActor × Reply)
after_handle sm (panicked m) = panics (worker sm) m
after_handle sm (returned (sm', r, (w, id))) = write w (done (worker sm', r))

-- The handler of the machine; the locks are held from the read to the write.
unfoldable pub handle_worker : WorkerSm → Text → Script types (AnyActor × Reply)
unfolding after_handle
handle_worker sm msg =
    self_id λ id. read λ w. after_handle sm (handle worker_handler msg sm (w, id))

unfoldable pub after_hook : WorkerSm → Outcome (WorkerSm × Shared) → Script types AnyActor
after_hook sm (panicked m) = panics (worker sm) m
after_hook sm (returned (sm', (w, id))) = write w (done (worker sm'))

unfoldable pub worker_started : WorkerSm → Script types AnyActor
unfolding after_hook
worker_started sm = self_id λ id. read λ w. after_hook sm (on_started worker_handler sm (w, id))

unfoldable pub worker_stopped : WorkerSm → Script types AnyActor
unfolding after_hook
worker_stopped sm = self_id λ id. read λ w. after_hook sm (on_stopped worker_handler sm (w, id))
