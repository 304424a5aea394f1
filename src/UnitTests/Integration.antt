-- ===== src/UnitTests/Integration.antt =====
-- tests/integration.rs: workers that send what they have done to probes.
use native.Mathlib.Decide.{ℕ_discrete}
use actinium_actor.Prelude.{ℕ, ◌≡◌, refl, Bool, false, List, [], ◌∷◌, ◌++◌, ◌==◌, if◌then◌else◌}
use actinium_actor.HashMap.{get, insert, remove}
use actinium_actor.Outcome.{Outcome, returned, ◌>>=◌}
use actinium_actor.Text.{Text, text, show, digits}
use actinium_actor.Actor.{Types, Code, Script, done, panics}
use actinium_actor.Actor.Store.{do_send, channel_send, drop_reply, send_reply, drop_envelope}
use actinium_actor.Actor.Exec.{new, exec, is_running}
use actinium_actor.Actor.Call.{type_mismatch, call_dispatch}
use actinium_actor.System.{new_system, spawn, dispatch, try_recv}
use actinium_actor.System.Loop.{run_once}
use actinium_actor.TestKit
use actinium_actor.TestKit.Probe.{
  Shelf, TestProbe, Probes, probe_handle, spawn_probe, recipient, count, all, any_match,
}
use actinium_actor.UnitTests.{assert}
use actinium_actor.UnitTests.Kits.{
  Tested, new_tested, spawn_tested, probe_tested, send_all, run_tested, has_part,
}

-- `WorkerActor` with its number and the address `output`: its identifier and its channel.
data AnyActor : Type 0 where
  probe_actor : ℕ → AnyActor
  worker_actor : (id actor_id tx : ℕ) → AnyActor

data AnyMessage : Type 0 where
  work_done : (actor_id : ℕ) → (result : Text) → AnyMessage
  do_work : Text → AnyMessage

abbrev types : Types
types = record {
  World = ℕ → List AnyMessage;
  Any = AnyActor;
  Kind = ℕ;
  Msg = AnyMessage;
  Val = Unit {0};
}

abbrev shelf : Shelf types
shelf = record {
  vector = λ w k. w k;
  put = λ k l w j. if k == j then l else w j;
  vector-put = λ k j l w. refl;
}

abbrev type_of : AnyActor → ℕ
type_of (probe_actor k) = 0
type_of (worker_actor id actor_id tx) = 1

-- A message that its actor has no handler for does not get here.
abbrev handle : AnyActor → AnyMessage → Script types (AnyActor × Unit {0})
handle (probe_actor k) msg = probe_handle shelf k (probe_actor k) tt msg
handle (worker_actor id actor_id tx) (do_work t) =
    let result = text "worker-" ++ show id ++ text " processed: " ++ t in
    Script.do_send (record { actor_id = actor_id; tx = tx; kind = 0 }) (work_done id result)
      (λ r. done (worker_actor id actor_id tx, tt))
handle actor msg = panics actor type_mismatch

abbrev program : Code
program = record {
  types = types;
  type_of = type_of;
  kind_discrete = ℕ_discrete;
  started = λ actor. done actor;
  stopped = λ actor. done actor;
  handle = handle;
}

abbrev probes : Probes program
probes = record {
  shelf = shelf;
  actor = probe_actor;
  kind = 0;
  default = tt;
  type_of = λ k. refl;
  started = λ k. refl;
  handles = λ k msg. refl;
}

abbrev result_contains : Text → AnyMessage → Bool
result_contains part (work_done n result) = has_part part result
result_contains part (do_work t) = false

abbrev is_from : ℕ → AnyMessage → Bool
is_from id (work_done n result) = n == id
is_from id (do_work t) = false

abbrev worker : ℕ → TestProbe types → AnyActor
worker id probe = worker_actor id probe.addr.actor_id probe.addr.tx

abbrev new_kit : Tested types
new_kit = new_tested types (λ k. [])

unfoldable test_worker_sends_output_to_probe : Outcome (Unit {0})
test_worker_sends_output_to_probe = do
  (s, probe) ← probe_tested program probes 0 new_kit
  (s', addr) ← spawn_tested program (worker 1 probe) s
  (kit, env) ←
      run_tested program
        (send_all program addr (do_work (text "hello") ∷ do_work (text "world") ∷ []) s')
  _ ← assert (count shelf probe env.world == 2)
  _ ← assert (any_match shelf (result_contains (text "hello")) probe env.world)
  assert (any_match shelf (result_contains (text "world")) probe env.world)

-- The threads send one after the other.
unfoldable test_multiple_workers : Outcome (Unit {0})
test_multiple_workers = do
  (s, probe) ← probe_tested program probes 0 new_kit
  (s1, addr1) ← spawn_tested program (worker 1 probe) s
  (s2, addr2) ← spawn_tested program (worker 2 probe) s1
  (s3, addr3) ← spawn_tested program (worker 3 probe) s2
  let task = do_work (text "task") ∷ []
  let sent1 = send_all program addr1 task s3
  let sent2 = send_all program addr2 task sent1
  (kit, env) ← run_tested program (send_all program addr3 task sent2)
  assert (count shelf probe env.world == 3)

unfoldable test_probe_only_receives_its_own_type : Outcome (Unit {0})
test_probe_only_receives_its_own_type = do
  (s, probe) ← probe_tested program probes 0 new_kit
  (kit, env) ←
      run_tested program (send_all program (recipient probe) (work_done 0 (text "test") ∷ []) s)
  assert (count shelf probe env.world == 1)

unfoldable test_actor_chain_with_probes : Outcome (Unit {0})
test_actor_chain_with_probes = do
  (s, probe_b) ← probe_tested program probes 0 new_kit
  (s1, probe_c) ← probe_tested program probes 1 s
  (s2, actor_a) ← spawn_tested program (worker 10 probe_b) s1
  (s3, actor_b) ← spawn_tested program (worker 20 probe_c) s2
  let sent_a = send_all program actor_a (do_work (text "to-b") ∷ []) s3
  (kit, env) ← run_tested program (send_all program actor_b (do_work (text "to-c") ∷ []) sent_a)
  _ ← assert (count shelf probe_b env.world == 1)
  _ ← assert (any_match shelf (is_from 10) probe_b env.world)
  _ ← assert (count shelf probe_c env.world == 1)
  assert (any_match shelf (is_from 20) probe_c env.world)

-- No assertion of the tests fails.
tests_pass :
    (test_worker_sends_output_to_probe ≡ returned tt)
    × (test_multiple_workers ≡ returned tt)
    × (test_probe_only_receives_its_own_type ≡ returned tt)
    × (test_actor_chain_with_probes ≡ returned tt)
unfolding test_worker_sends_output_to_probe test_multiple_workers
    test_probe_only_receives_its_own_type test_actor_chain_with_probes new_tested send_all
    TestKit.new TestKit.spawn TestKit.run_until_idle spawn_probe recipient count all any_match
    probe_handle new_system spawn run_once dispatch try_recv get insert remove do_send channel_send
    drop_reply send_reply drop_envelope new exec is_running call_dispatch ℕ_discrete show digits
tests_pass = (refl, refl, refl, refl)
