-- ===== src/Runtime/Join.antt =====
-- src/runtime.rs: `Runtime::run`, which shuts the workers down and waits for their threads.
use actinium_actor.Prelude.{
  subst, Bool-cases, inl, inr, ◌⊎◌, ◌==◌, arith, ℕ, ◌≡◌, refl, Bool, true, Option, none, some, List,
  [], ◌∷◌, ◌++◌, contains, map,
}
use actinium_actor.Outcome.{Outcome, returned, panicked}
use actinium_actor.Actor.{Types, Code, Addr, failed, runtime_shutdown}
use actinium_actor.Actor.Store.{Env, do_send, send}
use actinium_actor.Worker.{Worker, ControlMsg, Next, goes_on, returns, iteration}
use actinium_actor.Worker.Receive.{Calm}
use actinium_actor.Worker.Held.{Held}
use actinium_actor.Worker.Run.{has_shutdown}
use actinium_actor.Worker.Forever.{Runs, iteration-Runs}
use actinium_actor.Worker.Dropped.{drop_worker}
use actinium_actor.Worker.Closed.{drop_worker-Held, do_send-shut, send-shut}
use actinium_actor.Runtime.{Runtime, control, shutdown}
use actinium_actor.Runtime.Threads.{Placed}

-- What the threads that have ended leave, and how the caller of `run` stands: `none` if it blocks.
abbrev pub Joined : Types → Type 0
Joined t = Env t × Option (Outcome (Unit {0}))

unfoldable pub after_join : {t : Types} → (Env t → Joined t) → Env t × Outcome (Next t) → Joined t
after_join next (env, panicked m) = (env, some (panicked "worker thread should not panic"))
after_join next (env, returned (goes_on w)) = (env, none)
after_join next (env, returned (returns w)) = next (drop_worker w env)

module _ (c : Code) (order : List ℕ → List ℕ) (others : Env c.types → Env c.types) where
  open c use {types}

  -- The threads end one after the other, each with the iteration that takes the shutdown; `others` is
  -- what other threads do before it.
  unfoldable pub join_all : List (Worker types) → Env types → Joined types
  unfolding after_join
  join_all [] env = (env, some (returned tt))
  join_all (w ∷ ws) env = after_join (join_all ws) (iteration c order [] w (others env))

  -- `Runtime::run`
  unfoldable pub run : Runtime types → Env types → Joined types
  unfolding join_all
  run rt env = join_all (shutdown rt).handles env

module _ {t : Types} where
  abbrev AllShut : List (Worker t) → Type 0
  AllShut [] = Unit {0}
  AllShut (w ∷ ws) = (has_shutdown w.control_rx ≡ true) × AllShut ws

  has_shutdown-last :
      (q : List (ControlMsg t)) → has_shutdown (q ++ ControlMsg.shutdown ∷ []) ≡ true
  unfolding has_shutdown
  has_shutdown-last [] = refl
  has_shutdown-last (ControlMsg.shutdown ∷ q) = refl
  has_shutdown-last (ControlMsg.spawn_actor id cell confirm ∷ q) = has_shutdown-last q

  shutdown-AllShut : (ws : List (Worker t)) → AllShut (map (control ControlMsg.shutdown) ws)
  unfolding control
  shutdown-AllShut [] = tt
  shutdown-AllShut (w ∷ ws) = (has_shutdown-last w.control_rx, shutdown-AllShut ws)

  shutdown-Placed :
      (txs : List ℕ) (n : ℕ) (ws : List (Worker t))
      → Placed txs n ws
      → Placed txs n (map (control ControlMsg.shutdown) ws)
  unfolding control
  shutdown-Placed txs n [] h = tt
  shutdown-Placed txs n (w ∷ ws) h = (h.0, h.1, h.2, shutdown-Placed txs n ws h.3)

module _ {t : Types} where
  -- The channels that are closed once the workers have ended, with those that were before.
  abbrev ended : List (Worker t) → List ℕ → List ℕ
  ended [] shut = shut
  ended (w ∷ ws) shut = ended ws (w.msg_rx ∷ shut)

  ended-shutdown :
      (ws : List (Worker t)) (shut : List ℕ)
      → ended (map (control ControlMsg.shutdown) ws) shut ≡ ended ws shut
  unfolding control
  ended-shutdown [] shut = refl
  ended-shutdown (w ∷ ws) shut = ended-shutdown ws (w.msg_rx ∷ shut)

  contains-ended :
      (ws : List (Worker t)) (shut : List ℕ) (m : ℕ)
      → contains (map (λ (w : Worker t). w.msg_rx) ws) m ≡ true ⊎ (contains shut m ≡ true)
      → contains (ended ws shut) m ≡ true
  contains-ended [] shut m (inl h) = absurd cc
  contains-ended [] shut m (inr h) = h
  contains-ended (w ∷ ws) shut m h =
      contains-ended ws (w.msg_rx ∷ shut) m (elim (Bool-cases (w.msg_rx == m)) [
        | inl same ↦ inr (ground (arith, same))
        | inr other ↦ elim h [
          | inl h' ↦ inl (ground (arith, h', other))
          | inr h' ↦ inr (ground (arith, h', other))
        ]
      ])

module _ (c : Code) (calm : Calm c) (order : List ℕ → List ℕ) (others : Env c.types → Env c.types)
    (txs : List ℕ) (n : ℕ)
    (keep : (shut : List ℕ) (env : Env c.types)
      → Held txs n shut env
      → Held txs n shut (others env)) where
  open c use {types}

  abbrev AllJoined : List ℕ → Joined types → Type 0
  AllJoined shut r = (r.1 ≡ some (returned tt)) × Held txs n shut r.0

  after_join-AllJoined :
      (m i : ℕ) (b : Bool) (shut gone : List ℕ) (next : Env types → Joined types)
      (r : Env types × Outcome (Next types))
      → Held txs n shut r.0 × Runs m i b r.1
      → b ≡ true
      → contains txs m ≡ true
      → ((env : Env types) → Held txs n (m ∷ shut) env → AllJoined gone (next env))
      → AllJoined gone (after_join next r)
  unfolding after_join
  after_join-AllJoined m i b shut gone next (env, panicked e) (h, x) on has k = absurd x
  after_join-AllJoined m i b shut gone next (env, returned (goes_on w)) (h, (x, is, v)) on has k =
      cc
  after_join-AllJoined m i b shut gone next (env, returned (returns w)) (h, (x, is)) on has k =
      k (drop_worker w env) (
        subst (λ k'. Held txs n (k' ∷ shut) (drop_worker w env)) is
          (drop_worker-Held c txs n shut w env (rw is has) h))

  join_all-AllJoined :
      (ws : List (Worker types)) (shut : List ℕ) (env : Env types)
      → Placed txs n ws
      → AllShut ws
      → Held txs n shut env
      → AllJoined (ended ws shut) (join_all c order others ws env)
  unfolding join_all
  join_all-AllJoined [] shut env placed down h = (refl, h)
  join_all-AllJoined (w ∷ ws) shut env placed down h =
      after_join-AllJoined w.msg_rx w.worker_idx (has_shutdown w.control_rx) shut _ _ _
        (iteration-Runs c calm order txs n shut w.msg_rx w.worker_idx placed.0 placed.1 [] w
          (others env) (refl, refl, refl) (keep shut env h) placed.2)
        down.0 placed.0 (λ env' h'. join_all-AllJoined ws (w.msg_rx ∷ shut) env' placed.3 down.1 h')

  run-AllJoined :
      (rt : Runtime types) (env : Env types)
      → Placed txs n rt.handles
      → Held txs n [] env
      → AllJoined (ended rt.handles []) (run c order others rt env)
  unfolding run shutdown
  run-AllJoined rt env placed h =
      subst
        (λ shut.
          AllJoined shut
            (join_all c order others (map (control ControlMsg.shutdown) rt.handles) env))
        (ended-shutdown rt.handles [])
        (join_all-AllJoined _ [] env (shutdown-Placed txs n rt.handles placed)
          (shutdown-AllShut rt.handles) h)

  -- `Runtime::run` of a runtime whose workers have channels, actor maps and valid schedulers, where
  -- no `stopped` panics and the other threads keep the channels, the senders and the maps and reopen
  -- no channel: it does not panic, nor does it block, as no hook or handler of a script waits for the
  -- answer to a send; afterwards `send` and `do_send` to an address of any of the workers fail with
  -- the error of the shutdown.
  pub run-shuts_down :
      (rt : Runtime types) (env : Env types) (addr : Addr types) (msg : c.Msg)
      → Placed txs n rt.handles
      → Held txs n [] env
      → contains (map (λ (w : Worker types). w.msg_rx) rt.handles) addr.tx ≡ true
      → ((run c order others rt env).1 ≡ some (returned tt))
        × ((do_send addr msg (run c order others rt env).0).1 ≡ failed runtime_shutdown)
        × ((send addr msg (run c order others rt env).0).1 ≡ failed runtime_shutdown)
  run-shuts_down rt env addr msg placed h its =
      let (joined, after) = run-AllJoined rt env placed h in
      let (ch, there, gone) =
        after.closed addr.tx (contains-ended rt.handles [] addr.tx (inl its)) in
      (joined, do_send-shut addr msg _ ch there gone, send-shut addr msg _ ch there gone)
