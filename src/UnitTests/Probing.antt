-- ===== src/UnitTests/Probing.antt =====
-- src/testkit.rs: the tests of the probes.
use native.Mathlib.Decide.{ℕ_discrete}
use actinium_actor.Prelude.{
  ℕ, ◌+◌, ◌≡◌, refl, Bool, false, not, Option, some, List, [], ◌∷◌, length, ◌==◌, if◌then◌else◌,
}
use actinium_actor.HashMap.{get, insert, remove}
use actinium_actor.Outcome.{Outcome, returned, ◌>>=◌}
use actinium_actor.Text.{Text, text, same}
use actinium_actor.Actor.{Types, Code, Script, done, panics}
use actinium_actor.Actor.Store.{do_send, channel_send, drop_reply, send_reply, drop_envelope}
use actinium_actor.Actor.Exec.{new, exec, is_running}
use actinium_actor.Actor.Call.{type_mismatch, call_dispatch}
use actinium_actor.System.{new_system, spawn, dispatch, try_recv}
use actinium_actor.System.Loop.{run_once}
use actinium_actor.TestKit
use actinium_actor.TestKit.Probe.{
  Shelf, TestProbe, Probes, probe_handle, spawn_probe, recipient, count, received_any, first, all,
  reset, any_match,
}
use actinium_actor.UnitTests.{assert}
use actinium_actor.UnitTests.Kits.{
  new_tested, spawn_tested, probe_tested, send_all, run_tested, has_part,
}

data AnyActor : Type 0 where
  probe_actor counter : ℕ → AnyActor

data AnyMessage : Type 0 where
  echo : Text → AnyMessage
  inc : AnyMessage

data Reply : Type 0 where
  number : ℕ → Reply
  nothing : Reply

abbrev types : Types
types = record {
  World = ℕ → List AnyMessage;
  Any = AnyActor;
  Kind = ℕ;
  Msg = AnyMessage;
  Val = Reply;
}

abbrev shelf : Shelf types
shelf = record {
  vector = λ w k. w k;
  put = λ k l w j. if k == j then l else w j;
  vector-put = λ k j l w. refl;
}

abbrev type_of : AnyActor → ℕ
type_of (probe_actor k) = 0
type_of (counter n) = 1

-- A message that its actor has no handler for does not get here.
abbrev handle : AnyActor → AnyMessage → Script types (AnyActor × Reply)
handle (probe_actor k) msg = probe_handle shelf k (probe_actor k) nothing msg
handle (counter count) inc = done (counter (count + 1), number (count + 1))
handle (counter count) (echo s) = panics (counter count) type_mismatch

abbrev program : Code
program = record {
  types = types;
  type_of = type_of;
  kind_discrete = ℕ_discrete;
  started = λ actor. done actor;
  stopped = λ actor. done actor;
  handle = handle;
}

abbrev probes : Probes program
probes = record {
  shelf = shelf;
  actor = probe_actor;
  kind = 0;
  default = nothing;
  type_of = λ k. refl;
  started = λ k. refl;
  handles = λ k msg. refl;
}

-- A new probe, to which a thread sends the messages, and the world after the kit has run.
abbrev with_probe : List AnyMessage → Outcome (TestProbe types × (ℕ → List AnyMessage))
with_probe msgs = do
  (s, probe) ← probe_tested program probes 0 (new_tested types (λ k. []))
  (kit, env) ← run_tested program (send_all program (recipient probe) msgs s)
  returned (probe, env.world)

abbrev is_echo : Text → Option AnyMessage → Bool
is_echo t (some (echo s)) = same s t
is_echo t _ = false

abbrev echo_contains : Text → AnyMessage → Bool
echo_contains part (echo s) = has_part part s
echo_contains part inc = false

unfoldable probe_receives_messages : Outcome (Unit {0})
probe_receives_messages = do _ ← with_probe (echo (text "hello") ∷ []); returned tt

unfoldable probe_count_and_first : Outcome (Unit {0})
probe_count_and_first = do
  (probe, w) ← with_probe (echo (text "first") ∷ echo (text "second") ∷ [])
  _ ← assert (count shelf probe w == 2)
  _ ← assert (received_any shelf probe w)
  _ ← assert (is_echo (text "first") (first shelf probe w))
  assert (length (all shelf probe w) == 2)

unfoldable probe_reset : Outcome (Unit {0})
probe_reset = do
  (probe, w) ← with_probe (echo (text "test") ∷ [])
  _ ← assert (count shelf probe w == 1)
  assert (count shelf probe (reset shelf probe w) == 0)

unfoldable probe_any_match : Outcome (Unit {0})
probe_any_match = do
  (probe, w) ← with_probe (echo (text "apple") ∷ echo (text "banana") ∷ [])
  _ ← assert (any_match shelf (echo_contains (text "banana")) probe w)
  assert (not (any_match shelf (echo_contains (text "cherry")) probe w))

unfoldable spawn_actor_in_kit : Outcome (Unit {0})
spawn_actor_in_kit = do
  (s, addr) ← spawn_tested program (counter 0) (new_tested types (λ k. []))
  _ ← run_tested program (send_all program addr (inc ∷ inc ∷ []) s)
  returned tt

-- No assertion of the tests fails.
tests_pass :
    (probe_receives_messages ≡ returned tt)
    × (probe_count_and_first ≡ returned tt)
    × (probe_reset ≡ returned tt)
    × (probe_any_match ≡ returned tt)
    × (spawn_actor_in_kit ≡ returned tt)
unfolding probe_receives_messages probe_count_and_first probe_reset probe_any_match
    spawn_actor_in_kit new_tested send_all TestKit.new TestKit.spawn TestKit.run_until_idle
    spawn_probe recipient count received_any first all reset any_match probe_handle new_system spawn
    run_once dispatch try_recv get insert remove do_send channel_send drop_reply send_reply
    drop_envelope new exec is_running call_dispatch ℕ_discrete
tests_pass = (refl, refl, refl, refl, refl)
