-- ===== src/Examples/Probing.antt =====
-- src/testkit.rs: probe 3, the actor 1 of a system, in a world that is a list of messages.
use native.Mathlib.Decide.{ℕ_discrete}
use actinium_actor.Prelude.{
  ℕ, ◌≡◌, refl, some, none, List, [], ◌∷◌, ◌++◌, true, if◌then◌else◌, ◌==◌,
}
use actinium_actor.HashMap.{get}
use actinium_actor.Outcome.{Returns}
use actinium_actor.Actor.{Types, Code, done}
use actinium_actor.Actor.Store.{Mail, Env}
use actinium_actor.System.{ActorSystem}
use actinium_actor.TestKit.Probe.{Shelf, Probes, probe_handle}
use actinium_actor.TestKit.Records.{dispatch_all, dispatch_all-records}

-- A world of vectors, and actors that are all probes.
abbrev types : Types
types = record { World = ℕ → List ℕ; Any = ℕ; Kind = ℕ; Msg = ℕ; Val = Unit {0} }

abbrev shelf : Shelf types
shelf = record {
  vector = λ w k. w k;
  put = λ k l w j. if k == j then l else w j;
  vector-put = λ k j l w. refl;
}

abbrev program : Code
program = record {
  types = types;
  type_of = λ k. 0;
  kind_discrete = ℕ_discrete;
  started = λ k. done k;
  stopped = λ k. done k;
  handle = λ k msg. probe_handle shelf k k tt msg;
}

abbrev probing : Probes program
probing = record {
  shelf = shelf;
  actor = λ k. k;
  kind = 0;
  default = tt;
  type_of = λ k. refl;
  started = λ k. refl;
  handles = λ k msg. refl;
}

abbrev to_probe : ℕ → Mail types
to_probe msg = record { actor_id = 1; dispatch = record { kind = 0; msg = msg; reply = none } }

abbrev env : Env types
env = record {
  world = λ k. 5 ∷ [];
  channels = [];
  replies = [];
  next_reply = 0;
  shared = record {
    control_txs = [];
    msg_txs = [];
    actor_maps = [];
    next_id = 1;
    next_worker = 0;
    num_workers = 0;
    running = true;
  };
}

abbrev sys : ActorSystem types
sys = record {
  actors = (1, record { actor = 3; on_stop = 0 }) ∷ [];
  rx = 7;
  tx = none;
  next_id = 2;
  running = true;
}

dispatch_all-records_example :
    ((dispatch_all program (to_probe 8 ∷ to_probe 9 ∷ []) sys env).0.world 3
      ≡ (5 ∷ []) ++ (8 ∷ 9 ∷ []))
    × Returns
        (dispatch_all program (to_probe 8 ∷ to_probe 9 ∷ []) sys env).1
        (λ sys'. get sys'.actors 1 ≡ some (record { actor = 3; on_stop = 0 }))
unfolding get
dispatch_all-records_example =
    dispatch_all-records program probing 3 1 (to_probe 8 ∷ to_probe 9 ∷ []) sys env 0
      (refl, refl, (refl, refl, tt)) refl
