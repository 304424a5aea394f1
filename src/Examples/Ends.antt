-- ===== src/Examples/Ends.antt =====
-- src/runtime.rs: the counters' worker over iterations of its loop, and its end.
use actinium_actor.Prelude.{
  ◌≡◌, refl, true, some, List, [], ◌∷◌, arith, inl, inr, ℕ, subst, Bool-cases, ==_iff, ◌==◌,
  contains,
}
use actinium_actor.HashMap.{get}
use actinium_actor.Scheduler.{pending, mailbox_or_default}
use actinium_actor.Scheduler.Invariant.{new-Valid}
use actinium_actor.Actor.{Addr, failed, runtime_shutdown}
use actinium_actor.Actor.Store.{Channel, do_send, send}
use actinium_actor.Worker.{Worker, shutdown, spawn_actor}
use actinium_actor.Worker.Held.{Held}
use actinium_actor.Worker.Run.{Input, run, shuts}
use actinium_actor.Worker.Forever.{Runs, run-Runs}
use actinium_actor.Worker.Dropped.{Refused, drop_worker, drop_worker-Refused}
use actinium_actor.Outcome.{returned}
use actinium_actor.Runtime.{Runtime}
use actinium_actor.Runtime.Join
use actinium_actor.Runtime.Dropped.{drop, drop-shuts_down}
use actinium_actor.Examples.Systems.{types, counters, asks, cell}
use actinium_actor.Examples.Workers.{shared_env, worker, counters-Calm}

-- A spawn and a shutdown, two iterations later.
abbrev inputs : List (Input types)
inputs =
    record { control = spawn_actor 4 (cell 40) 4 ∷ []; others = λ e. e; late = [] }
    ∷ record { control = []; others = λ e. e; late = asks 1 3 ∷ [] }
    ∷ record { control = shutdown ∷ []; others = λ e. e; late = [] }
    ∷ []

shared_env-channels :
    (m : ℕ)
    → contains (7 ∷ []) m ≡ true
    → (ch : Channel types) × (get shared_env.channels m ≡ some ch)
unfolding get
shared_env-channels m held = elim (Bool-cases (7 == m)) [
  | inl same ↦
      subst (λ k. (ch : Channel types) × (get shared_env.channels k ≡ some ch))
        ((==_iff 7 m).0 same) (_, refl)
  | inr other ↦ absurd (ground (arith, held, other))
]

pub shared_env-Held : Held (7 ∷ []) 1 [] shared_env
shared_env-Held = record {
  senders = refl;
  channels = shared_env-channels;
  closed = λ m h. absurd cc;
  maps = refl;
  count = refl;
}

run-Runs_example :
    Held (7 ∷ []) 1 [] (run counters (λ l. l) inputs worker shared_env).0
    × Runs 7 0 (shuts inputs) (run counters (λ l. l) inputs worker shared_env).1
run-Runs_example =
    run-Runs counters counters-Calm (λ l. l) (7 ∷ []) 1 [] 7 0 refl (omega arith) inputs worker
      shared_env (λ e h. h, (λ e h. h, (λ e h. h, tt))) (refl, refl, refl) shared_env-Held new-Valid

abbrev pub small : Runtime types
small = record { handles = worker ∷ [] }

abbrev address : Addr types
address = record { actor_id = 2; tx = 7; kind = 0 }

run-shuts_down_example :
    ((Join.run counters (λ l. l) (λ e. e) small shared_env).1 ≡ some (returned tt))
    × ((do_send address 3 (Join.run counters (λ l. l) (λ e. e) small shared_env).0).1
        ≡ failed runtime_shutdown)
    × ((send address 3 (Join.run counters (λ l. l) (λ e. e) small shared_env).0).1
        ≡ failed runtime_shutdown)
run-shuts_down_example =
    Join.run-shuts_down counters counters-Calm (λ l. l) (λ e. e) (7 ∷ []) 1 (λ s e h. h) small
      shared_env address 3 (refl, omega arith, new-Valid, tt) shared_env-Held refl

abbrev busy : Worker types
busy = record worker {
  scheduler = record { mailboxes = (2, asks 2 9 ∷ []) ∷ []; ready_queue = 2 ∷ [] };
}

drop_worker-Refused_example : Refused 5 (drop_worker busy shared_env)
unfolding pending mailbox_or_default get
drop_worker-Refused_example = drop_worker-Refused 5 busy shared_env (inr (2, inl refl))

drop-shuts_down_example :
    (drop counters (λ l. l) (λ e. e) small shared_env
      ≡ ((Join.run counters (λ l. l) (λ e. e) small shared_env).0, some tt))
    × ((do_send address 3 (drop counters (λ l. l) (λ e. e) small shared_env).0).1
        ≡ failed runtime_shutdown)
    × ((send address 3 (drop counters (λ l. l) (λ e. e) small shared_env).0).1
        ≡ failed runtime_shutdown)
drop-shuts_down_example =
    drop-shuts_down counters (λ l. l) (λ e. e) counters-Calm (7 ∷ []) 1 small shared_env address 3
      (λ s e h. h) (refl, omega arith, new-Valid, tt) shared_env-Held refl refl
