-- ===== src/Examples/Demos.antt =====
-- examples/ and main.rs: the actors of the demonstrations on a few messages.
use actinium_actor.Prelude.{ℕ, ◌+◌, ◌/◌, ◌≡◌, refl, none, some, true, List, [], ◌∷◌, length, arith}
use actinium_actor.HashMap.{get}
use actinium_actor.Outcome.{returned, Returns}
use actinium_actor.Text.{Text, text}
use actinium_actor.Actor.{sent}
use actinium_actor.Actor.Store.{Env, receive_reply}
use actinium_actor.System.{ActorSystem, dispatch}
use actinium_actor.StateMachine.{StateMachine}
use actinium_actor.StateMachine.Cycle.{handle_all, at_index}
use actinium_actor.Demo.Counter
use actinium_actor.Demo.PingPong.{
  RallyActor, Rally, RallyState, ping, pong, rally, volley, handle_all-volley,
}
use actinium_actor.Demo.Tasks.{WorkerActor, Task, TaskState, stages}
use actinium_actor.Demo.Pipeline.{
  PipelineActor, Document, DocState, pipeline, valid_from, handle_all-Processed,
}

abbrev alice : StateMachine RallyActor RallyState
alice = record { inner = record { name = text "Alice" }; current = 0; states = ping ∷ pong ∷ [] }

abbrev rallies : List Rally
rallies =
    record { player = text "bob"; round = 1 }
    ∷ record { player = text "bob"; round = 2 }
    ∷ record { player = text "bob"; round = 3 }
    ∷ []

handle_all-volley_example :
    handle_all rally rallies alice tt
    ≡ returned (
        at_index
          (rally {C = Unit {0}})
          3
          alice
          (record { name = text "Alice" }, volley 0 rallies alice.inner, tt))
handle_all-volley_example =
    handle_all-volley rallies alice tt (record { within = omega arith; sequence = refl }) refl

abbrev thread : Unit {0} → Text
thread c = text "ThreadId(2)"

abbrev task : ℕ → Task
task n = record { duration_ms = n }

abbrev tasks : StateMachine WorkerActor TaskState
tasks = record { inner = record { id = 3 }; current = 0; states = (stages thread).state_sequence }

abbrev documents : List Document
documents =
    record { id = 1; content = text "a" }
    ∷ record { id = 2; content = text "b" }
    ∷ record { id = 3; content = [] }
    ∷ record { id = 4; content = text "d" }
    ∷ record { id = 5; content = text "e" }
    ∷ record { id = 6; content = [] }
    ∷ record { id = 7; content = text "g" }
    ∷ []

abbrev papers : StateMachine PipelineActor DocState
papers = record {
  inner = record { processed = 0; validated = 0 };
  current = 0;
  states = (pipeline {C = Unit {0}}).state_sequence;
}

handle_all-Processed_example : Returns (handle_all pipeline documents papers tt) (λ x.
    (x.0.inner.processed ≡ 0 + 8 / 4)
    × (x.0.inner.validated ≡ 0 + valid_from 0 documents)
    × (length x.1 ≡ 7))
handle_all-Processed_example =
    handle_all-Processed documents papers tt (record { within = omega arith; sequence = refl }) refl
      (omega arith) (omega arith)

abbrev counting : ActorSystem Counter.types
counting = record {
  actors = (1, Counter.cell_of (Counter.counter 4)) ∷ (2, Counter.cell_of Counter.printer) ∷ [];
  rx = 7;
  tx = none;
  next_id = 3;
  running = true;
}

abbrev outside : Env Counter.types
outside = record {
  world = tt;
  channels = [];
  replies = [];
  next_reply = 9;
  shared = record {
    control_txs = [];
    msg_txs = [];
    actor_maps = [];
    next_id = 1;
    next_worker = 0;
    num_workers = 0;
    running = true;
  };
}

dispatch-increment_all_example :
    Returns (Counter.increment_all 1 (some 5 ∷ some 6 ∷ none ∷ []) counting outside).1 (λ sys.
      receive_reply 8
        (dispatch Counter.program (Counter.to_counter 1 Counter.get_count (some 8)) sys outside).0
      ≡ some (sent (Counter.number 7)))
unfolding get
dispatch-increment_all_example =
    Counter.dispatch-increment_all 1 4 8 (some 5 ∷ some 6 ∷ none ∷ []) counting outside outside refl
      (omega arith)
