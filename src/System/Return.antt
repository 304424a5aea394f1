-- ===== src/System/Return.antt =====
-- `run` returns once the last address is dropped.
use actinium_actor.Prelude.{
  ℕ, zero, suc, ◌≡◌, refl, ◌∙◌, true, false, none, some, List, [], ◌∷◌, length, arith,
}
use actinium_actor.HashMap.{get, insert}
use actinium_actor.HashMap.Laws.{get-insert}
use actinium_actor.Outcome.{Outcome, returned, panicked, Ensures}
use actinium_actor.Actor.{Types, Code}
use actinium_actor.Actor.Store.{Mail, Channel, Env}
use actinium_actor.Actor.Silent.{Silent}
use actinium_actor.System.{ActorSystem, disconnected, try_recv, try_recv_on, take_first, dispatch}
use actinium_actor.System.Dispatching.{Ensures-map}
use actinium_actor.System.Shell.{dispatch-Same}
use actinium_actor.System.Loop.{
  Event, hangs_up, receives, is_some, hang_up, drop_clients, on_received, after_dispatch,
  while_running, leave, run_loop, run,
}
use actinium_actor.System.Progress.{try_recv-cons, still_there}

-- The loop receives `n` times, and once more.
abbrev pub receive_all : {t : Types} → ℕ → List (Event t)
receive_all zero = receives ∷ []
receive_all (suc n) = receives ∷ receive_all n

-- Nobody holds a sender of the system's channel, in which `q` waits.
record Closed {t : Types} (q : List (Mail t)) (sys : ActorSystem t) (env : Env t) : Type 0 where
  pub running : sys.running ≡ true
  pub tx : sys.tx ≡ none
  pub waiting :
      (ch : Channel t) × (get env.channels sys.rx ≡ some ch) × (ch.clients ≡ false) × (ch.queue ≡ q)

try_recv-closed :
    {t : Types} (k : ℕ) (env : Env t) (ch : Channel t)
    → get env.channels k ≡ some ch
    → ch.clients ≡ false
    → ch.queue ≡ []
    → try_recv k false env ≡ (env, disconnected)
unfolding try_recv try_recv_on take_first
try_recv-closed k env ch there closed h = rw (there, h, closed)

module _ (c : Code) (silent : Silent c) (order : List ℕ → List ℕ) where
  open c use {types}

  after_dispatch-some :
      (es : List (Event types)) (r : Env types × Outcome (ActorSystem types))
      → Ensures r.1 (λ sys. is_some (run_loop c order es sys r.0).1 ≡ true)
      → is_some (after_dispatch c (run_loop c order es) r).1 ≡ true
  unfolding after_dispatch
  after_dispatch-some es (env, panicked m) h = refl
  after_dispatch-some es (env, returned sys) h = h

  run_loop-returns :
      (q : List (Mail types)) (sys : ActorSystem types) (env : Env types)
      → Closed q sys env
      → is_some (run_loop c order (receive_all (length q)) sys env).1 ≡ true
  unfolding run_loop while_running leave on_received
  run_loop-returns [] sys env w =
      let (ch, there, closed, h) = w.waiting in
      simp (w.running, w.tx, try_recv-closed sys.rx env ch there closed h) refl
  run_loop-returns (e ∷ q) sys env w =
      let (ch, there, closed, h) = w.waiting in
      let ch' : Channel types = record ch { queue = q } in
      let env' : Env types = record env { channels = insert sys.rx ch' env.channels } in
      simp (w.running, w.tx, try_recv-cons sys.rx false env ch e q there h)
        (after_dispatch-some (receive_all (length q)) (dispatch c e sys env') (
          Ensures-map c (dispatch c e sys env').1 _ _ (dispatch-Same c e sys env') (λ sys' same.
            run_loop-returns q sys' (dispatch c e sys env').0 (record {
              running = same.2 ∙ w.running;
              tx = same.1 ∙ w.tx;
              waiting = (ch', still_there c silent e sys sys' env ch' same.0, closed, refl);
            }))))

  -- Where no hook and no handler sends anything: if the clients drop the last address, `run` returns or
  -- panics after it has received once more than there are messages waiting.
  pub run-returns :
      (sys : ActorSystem types) (env : Env types) (ch : Channel types)
      → get env.channels sys.rx ≡ some ch
      → is_some (run c order (hangs_up ∷ receive_all (length ch.queue)) sys env).1 ≡ true
  unfolding run run_loop while_running hang_up drop_clients
  run-returns sys env ch there = rw there (
      run_loop-returns ch.queue (record sys { running = true; tx = none }) _
        (record {
          running = refl;
          tx = refl;
          waiting = (
            record ch { clients = false },
            ground (arith, get-insert sys.rx (record ch { clients = false }) env.channels sys.rx),
            refl,
            refl,
          );
        }))
