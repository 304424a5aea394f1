-- ===== src/Examples/Systems.antt =====
-- src/system.rs: counters, which add the number of a message to their own, stop at 0 and panic at 1.
use native.Mathlib.Decide.{ℕ_discrete}
use actinium_actor.Prelude.{
  ℕ, zero, suc, false, ◌+◌, ◌≡◌, refl, none, some, List, [], ◌∷◌, true, arith,
}
use actinium_actor.HashMap.{get}
use actinium_actor.Outcome.{Ensures}
use actinium_actor.Actor.{Types, Code, Script, done, panics, stop, sent}
use actinium_actor.Actor.Store.{Mail, ActorCell, Env, receive_reply, do_send}
use actinium_actor.Actor.Exec.{Context, new, is_running, exec}
use actinium_actor.Actor.Silent.{Silent}
use actinium_actor.Actor.Replies.{Answered}
use actinium_actor.System.{ActorSystem, new_system, spawn, dispatch}
use actinium_actor.System.Loop.{Event, posts, hangs_up, receives, run, run_once}
use actinium_actor.System.Dispatching.{dispatch-others}
use actinium_actor.System.Answers.{dispatch-Answered, dispatch-finished, kept}
use actinium_actor.System.Identity.{Spawned, new_system-IsFresh, spawn-Spawned}
use actinium_actor.TestKit.{run_until_idle}
use actinium_actor.TestKit.Idle.{kit_of, run_until_idle-run_once}
use actinium_actor.System.Return.{receive_all, run-returns}
use actinium_actor.System.Loop.{is_some}
use actinium_actor.System.Drain.{Leaves, run-stops_all}

abbrev pub types : Types
types = record { World = Unit {0}; Any = ℕ; Kind = ℕ; Msg = ℕ; Val = ℕ }

abbrev pub add : ℕ → ℕ → Script types (ℕ × ℕ)
add n zero = stop (done (n, n))
add n (suc zero) = panics n "one"
add n m = done (n + m, n + m)

abbrev pub counters : Code
counters = record {
  types = types;
  type_of = λ n. 0;
  kind_discrete = ℕ_discrete;
  started = λ n. done n;
  stopped = λ n. done n;
  handle = add;
}

-- A message with a number to the actor, whose sender waits on reply channel 5.
abbrev pub asks : ℕ → ℕ → Mail types
asks actor_id msg = record {
  actor_id = actor_id;
  dispatch = record { kind = 0; msg = msg; reply = some 5 };
}

abbrev pub env : Env types
env = record {
  world = tt;
  channels = (7, record { queue = asks 1 4 ∷ asks 2 1 ∷ []; clients = true; receiver = true }) ∷ [];
  replies = [];
  next_reply = 6;
  shared = record {
    control_txs = [];
    msg_txs = [];
    actor_maps = [];
    next_id = 1;
    next_worker = 0;
    num_workers = 0;
    running = true;
  };
}

abbrev pub cell : ℕ → ActorCell types
cell n = record { actor = n; on_stop = 0 }

-- The actors 1 and 2, which count 10 and 20.
abbrev sys : ActorSystem types
sys = record {
  actors = (1, cell 10) ∷ (2, cell 20) ∷ [];
  rx = 7;
  tx = some 7;
  next_id = 3;
  running = false;
}

dispatch-Answered_example : Answered counters 5 (dispatch counters (asks 2 1) sys env).0
dispatch-Answered_example = dispatch-Answered counters 5 (asks 2 1) sys env refl

dispatch-finished_example :
    (receive_reply 5 (dispatch counters (asks 1 4) sys env).0 ≡ some (sent 14))
    × Ensures
        (dispatch counters (asks 1 4) sys env).1
        (λ sys'. get sys'.actors 1 ≡ kept counters true (cell 10) 14)
unfolding get exec is_running new
dispatch-finished_example =
    dispatch-finished counters 5 (asks 1 4) sys env (cell 10) refl refl refl refl

dispatch-others_example :
    Ensures (dispatch counters (asks 1 0) sys env).1 (λ sys'. get sys'.actors 2 ≡ get sys.actors 2)
dispatch-others_example = dispatch-others counters (asks 1 0) sys env 2 (λ e. omega arith)

spawn-Spawned_example :
    Ensures
      (spawn counters 30 (new_system 7) env).1
      (λ x. Spawned counters 7 (new_system 7) x.0 x.1)
unfolding new_system
spawn-Spawned_example =
    spawn-Spawned counters 30 7 (new_system 7) env refl (new_system-IsFresh 7) (omega arith)

abbrev schedule : List (Event types)
schedule = receives ∷ posts (asks 1 0) ∷ hangs_up ∷ receives ∷ receives ∷ receives ∷ []

run-stops_all_example :
    Leaves counters (run counters (λ l. l) schedule sys env).1 (λ sys'. get sys'.actors 2 ≡ none)
run-stops_all_example = run-stops_all counters (λ l. l) (λ l a. refl) 2 schedule sys env

counters-Silent : Silent counters
unfolding exec
counters-Silent = record {
  handles = λ actor msg ctx e. adds actor msg ctx e;
  stops = λ actor ctx e. refl;
}
  where
    adds :
        (n m : ℕ) (ctx : Context) (e : Env types)
        → (exec counters (add n m) ctx e).0.channels ≡ e.channels
    adds n zero ctx e = refl
    adds n (suc zero) ctx e = refl
    adds n (suc (suc m)) ctx e = refl

-- Another thread sends before the first pass, and drops an answer before the second.
abbrev sends_first : Env types → Env types
sends_first e = (do_send (record { actor_id = 1; tx = 7; kind = 0 }) 1 e).0

abbrev drops_later : Env types → Env types
drops_later e = record e { replies = [] }

run_until_idle-run_once_example :
    run_until_idle counters (sends_first ∷ drops_later ∷ []) 10 (record { system = sys }) env
    ≡ kit_of counters drops_later (run_once counters 10 sys (sends_first env))
run_until_idle-run_once_example =
    run_until_idle-run_once counters 9 sends_first drops_later [] (record { system = sys }) env
      (λ e h. h)

run-returns_example : is_some (run counters (λ l. l) (hangs_up ∷ receive_all 2) sys env).1 ≡ true
unfolding get
run-returns_example = run-returns counters counters-Silent (λ l. l) sys env _ refl
