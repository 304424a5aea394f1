-- ===== src/UnitTests/Runs.antt =====
-- src/runtime.rs: the tests themselves.
use native.Mathlib.Decide.{ℕ_discrete}
use actinium_actor.Prelude.{
  ℕ, zero, suc, ◌≡◌, refl, Bool, false, not, ◌&&◌, List, ◌∷◌, ◌==◌, length,
}
use actinium_actor.HashMap.{get, insert, remove, keys}
use actinium_actor.Outcome.{Outcome, returned, panicked, ◌>>=◌}
use actinium_actor.Scheduler.{
  enqueue, next_ready, has_pending, dequeue, requeue_if_ready, remove_actor, pending,
}
use actinium_actor.Scheduler
use actinium_actor.Actor.{Addr}
use actinium_actor.Actor.Store.{
  Env, do_send, channel_send, send_reply, drop_reply, allocate_id, pick_worker, drop_envelope,
}
use actinium_actor.Actor.Exec.{exec, is_running, new}
use actinium_actor.Actor.Call.{call_dispatch, call_on_stop}
use actinium_actor.System.{try_recv}
use actinium_actor.Actor.Store
use actinium_actor.Actor.Spawner
use actinium_actor.Runtime.Join
use actinium_actor.Runtime.Dropped
use actinium_actor.Worker.Dropped.{drop_worker}
use actinium_actor.Worker.{drain, actor_map, post_all, iteration, stop_actor}
use actinium_actor.Runtime
use actinium_actor.Runtime.{num_workers, shutdown}
use actinium_actor.UnitTests.{assert}
use actinium_actor.UnitTests.Threads.{
  counter_actor, fair_actor, lifecycle_actor, parent_actor, panic_actor, increment, ping, work,
  spawn_child, trigger_panic, Tested, types, with_threads, step, steps, spawn, ask, ask_many, run,
  drop, is_number, is_ok,
}

unfoldable spawn_and_send_message : Outcome (Unit {0})
spawn_and_send_message = do
  s ← with_threads 2
  (s1, addr) ← spawn (counter_actor 0) s
  (s2, answer) ← ask addr increment s1
  _ ← assert (is_number 1 answer)
  _ ← run s2
  returned tt

-- `n` new counters, each of which a thread sends an increment to.
unfoldable counters : ℕ → Tested → Outcome Tested
counters zero s = returned s
counters (suc n) s = do
  (s1, addr) ← spawn (counter_actor 0) s
  s2 ← counters n s1
  (s3, _) ← ask addr increment s2
  returned s3

unfoldable round_robin_distribution : Outcome (Unit {0})
round_robin_distribution = do s ← with_threads 4; s1 ← counters 8 s; _ ← run s1; returned tt

unfoldable many_actors_few_threads : Outcome (Unit {0})
many_actors_few_threads = do s ← with_threads 2; s1 ← counters 100 s; _ ← run s1; returned tt

unfoldable shutdown_stops_workers : Outcome (Unit {0})
shutdown_stops_workers = do
  s ← with_threads 2
  (s1, addr) ← spawn (counter_actor 0) s
  ((rt, env), answer) ← ask addr increment s1
  _ ← assert (is_ok answer)
  _ ← drop (shutdown rt, env)
  returned tt

unfoldable custom_thread_count : Outcome (Unit {0})
custom_thread_count = do
  s ← with_threads 1
  _ ← assert (num_workers s.1 == 1)
  (s1, addr) ← spawn (counter_actor 0) s
  (s2, answer) ← ask addr increment s1
  _ ← assert (is_ok answer)
  _ ← run s2
  returned tt

unfoldable zero_threads_panics : Outcome Tested
zero_threads_panics = with_threads 0

unfoldable actor_started_and_stopped_called : Outcome (Unit {0})
actor_started_and_stopped_called = do
  s ← with_threads 2
  (s1, addr) ← spawn lifecycle_actor s
  (s2, answer) ← ask addr ping s1
  _ ← assert (is_ok answer)
  env ← run s2
  assert env.world.started

-- The ten threads send one after the other.
unfoldable concurrent_sends_from_multiple_threads : Outcome (Unit {0})
concurrent_sends_from_multiple_threads = do
  s ← with_threads 4
  (s1, addr) ← spawn (counter_actor 0) s
  s2 ← ask_many 100 addr increment s1
  _ ← run s2
  returned tt

unfoldable work_three : Addr types → Tested → Tested
work_three addr (rt, env) =
    let env' = (do_send addr work (do_send addr work (do_send addr work env).0).0).0 in (rt, env')

-- More than one among the first three.
abbrev interleaved : List ℕ → Bool
interleaved (x ∷ y ∷ z ∷ order) = not (x == y && y == z)
interleaved _ = false

unfoldable scheduler_fairness : Outcome (Unit {0})
scheduler_fairness = do
  s ← with_threads 1
  (s1, a) ← spawn (fair_actor 0) s
  (s2, b) ← spawn (fair_actor 1) s1
  (s3, c) ← spawn (fair_actor 2) s2
  s4 ← steps 0 9 (work_three c (work_three b (work_three a s3)))
  env ← run s4
  _ ← assert (length env.world.processed == 9)
  assert (interleaved env.world.processed)

unfoldable context_spawn_child_actor : Outcome (Unit {0})
context_spawn_child_actor = do
  s ← with_threads 2
  (s1, parent) ← spawn parent_actor s
  (s2, answer) ← ask parent spawn_child s1
  _ ← assert (is_ok answer)
  (s3, answer') ← ask parent spawn_child s2
  _ ← assert (is_ok answer')
  env ← drop s3
  assert (env.world.child_count == 2)

unfoldable panic_isolation : Outcome (Unit {0})
panic_isolation = do
  s ← with_threads 1
  (s1, addr) ← spawn panic_actor s
  (s2, _) ← ask addr trigger_panic s1
  _ ← run s2
  returned tt

-- No assertion of the tests fails, and the one without threads panics as expected.
tests_pass :
    (spawn_and_send_message ≡ returned tt)
    × (round_robin_distribution ≡ returned tt)
    × (shutdown_stops_workers ≡ returned tt)
    × (custom_thread_count ≡ returned tt)
    × (zero_threads_panics ≡ panicked "at least one worker thread is required")
    × (actor_started_and_stopped_called ≡ returned tt)
    × (scheduler_fairness ≡ returned tt)
    × (context_spawn_child_actor ≡ returned tt)
    × (panic_isolation ≡ returned tt)
unfolding spawn_and_send_message round_robin_distribution shutdown_stops_workers custom_thread_count
    zero_threads_panics actor_started_and_stopped_called scheduler_fairness
    context_spawn_child_actor panic_isolation counters work_three with_threads step steps spawn ask
    run drop Runtime.with_threads Runtime.spawn shutdown num_workers get insert remove keys enqueue
    next_ready has_pending dequeue requeue_if_ready remove_actor pending do_send channel_send
    send_reply drop_reply allocate_id pick_worker drop_envelope exec is_running new call_dispatch
    call_on_stop try_recv drain actor_map post_all iteration ℕ_discrete Scheduler.new Store.send
    Store.receive_reply Join.run stop_actor Spawner.remove_actor drop_worker Dropped.drop
    Spawner.spawn_actor_direct
tests_pass = (refl, refl, refl, refl, refl, refl, refl, refl, refl)

many_actors_few_threads_lem : many_actors_few_threads ≡ returned tt
unfolding many_actors_few_threads counters with_threads step steps spawn ask run drop
    Runtime.with_threads Runtime.spawn shutdown num_workers get insert remove keys enqueue
    next_ready has_pending dequeue requeue_if_ready remove_actor pending do_send channel_send
    send_reply drop_reply allocate_id pick_worker drop_envelope exec is_running new call_dispatch
    call_on_stop try_recv drain actor_map post_all iteration ℕ_discrete Scheduler.new Store.send
    Store.receive_reply Join.run stop_actor Spawner.remove_actor drop_worker Dropped.drop
    Spawner.spawn_actor_direct
many_actors_few_threads_lem = refl

concurrent_sends_from_multiple_threads_lem : concurrent_sends_from_multiple_threads ≡ returned tt
unfolding concurrent_sends_from_multiple_threads ask_many with_threads step steps spawn ask run drop
    Runtime.with_threads Runtime.spawn shutdown num_workers get insert remove keys enqueue
    next_ready has_pending dequeue requeue_if_ready remove_actor pending do_send channel_send
    send_reply drop_reply allocate_id pick_worker drop_envelope exec is_running new call_dispatch
    call_on_stop try_recv drain actor_map post_all iteration ℕ_discrete Scheduler.new Store.send
    Store.receive_reply Join.run stop_actor Spawner.remove_actor drop_worker Dropped.drop
    Spawner.spawn_actor_direct
concurrent_sends_from_multiple_threads_lem = refl
