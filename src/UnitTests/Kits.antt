-- ===== src/UnitTests/Kits.antt =====
-- src/testkit.rs: what the tests with a `TestKit` share. The threads that send have ended before
-- `run_until_idle`: the tests sleep in between.
use actinium_actor.Prelude.{
  ℕ, Bool, true, false, ◌&&◌, ◌||◌, Option, none, some, List, [], ◌∷◌, ◌==◌,
}
use actinium_actor.Outcome.{Outcome, returned, panicked, ◌>>=◌}
use actinium_actor.Text.{Text}
use actinium_actor.Actor.{Types, Code, Addr}
use actinium_actor.Actor.Store.{Env, do_send}
use actinium_actor.TestKit
use actinium_actor.TestKit.{TestKit}
use actinium_actor.TestKit.Probe.{TestProbe, Probes, spawn_probe}

abbrev pub Tested : Types → Type 0
Tested t = TestKit t × Env t

-- `TestKit::new()`, with the channel 0.
unfoldable pub new_tested : (t : Types) → t.World → Tested t
new_tested t world = (
  TestKit.new 0,
  record {
    world = world;
    channels = (0, record { queue = []; clients = true; receiver = true }) ∷ [];
    replies = [];
    next_reply = 0;
    shared = record {
      control_txs = [];
      msg_txs = [];
      actor_maps = [];
      next_id = 1;
      next_worker = 0;
      num_workers = 0;
      running = true;
    };
  },
)

module _ (c : Code) where
  open c use {types, Any, Msg}

  abbrev pub spawn_tested : Any → Tested types → Outcome (Tested types × Addr types)
  spawn_tested actor (kit, env) = do
    let (env', r) = TestKit.spawn c actor kit env
    (kit', addr) ← r
    returned ((kit', env'), addr)

  -- The new vector has the number `k`.
  abbrev pub probe_tested : Probes c → ℕ → Tested types → Outcome (Tested types × TestProbe types)
  probe_tested p k (kit, env) = do
    let (env', r) = spawn_probe c p k kit env
    (kit', probe) ← r
    returned ((kit', env'), probe)

  -- A thread that sends the messages and ends.
  unfoldable pub send_all : Addr types → List Msg → Tested types → Tested types
  send_all addr [] s = s
  send_all addr (m ∷ ms) (kit, env) = send_all addr ms (kit, (do_send addr m env).0)

  abbrev idle : Env types × Option (Outcome (TestKit types)) → Outcome (Tested types)
  idle (env, none) = panicked "out of fuel"
  idle (env, some (panicked m)) = panicked m
  idle (env, some (returned kit)) = returned (kit, env)

  -- Two passes are enough, and fuel for one message more than there are.
  abbrev pub run_tested : Tested types → Outcome (Tested types)
  run_tested (kit, env) =
      idle (TestKit.run_until_idle c ((λ env. env) ∷ (λ env. env) ∷ []) 10 kit env)

-- `str::contains`
abbrev pub starts_with : Text → Text → Bool
starts_with [] s = true
starts_with (x ∷ xs) [] = false
starts_with (x ∷ xs) (y ∷ ys) = let rest = starts_with xs ys in x == y && rest

abbrev pub has_part : Text → Text → Bool
has_part part [] = starts_with part []
has_part part (y ∷ ys) = let rest = has_part part ys in starts_with part (y ∷ ys) || rest
