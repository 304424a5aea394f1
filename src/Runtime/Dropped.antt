-- ===== src/Runtime/Dropped.antt =====
-- src/runtime.rs: `Drop` of the runtime.
use actinium_actor.Prelude.{
  ℕ, ◌≡◌, refl, ap, ◌∙◌, Bool, true, Option, some, none, List, [], ◌∷◌, contains, map,
  if◌then◌else◌,
}
use actinium_actor.Outcome.{Outcome, returned, panicked}
use actinium_actor.Actor.{Types, Code, Addr, failed, runtime_shutdown}
use actinium_actor.Actor.Store.{Env, do_send, send}
use actinium_actor.Worker.{Worker, Next, goes_on, returns, iteration}
use actinium_actor.Worker.Receive.{Calm}
use actinium_actor.Worker.Held.{Held}
use actinium_actor.Worker.Dropped.{drop_worker}
use actinium_actor.Runtime.{Runtime, shutdown}
use actinium_actor.Runtime.Threads.{Placed}
use actinium_actor.Runtime.Join.{Joined, after_join, join_all, run, run-shuts_down}

-- `let _ = handle.join()`: that a thread has panicked is passed over. What its stack drops is left out.
unfoldable pub after_quiet :
    {t : Types}
    → (Env t → Env t × Option (Unit {0}))
    → Env t × Outcome (Next t)
    → Env t × Option (Unit {0})
after_quiet next (env, panicked m) = next env
after_quiet next (env, returned (goes_on w)) = (env, none)
after_quiet next (env, returned (returns w)) = next (drop_worker w env)

module _ (c : Code) (order : List ℕ → List ℕ) (others : Env c.types → Env c.types) where
  open c use {types}

  unfoldable pub join_quietly : List (Worker types) → Env types → Env types × Option (Unit {0})
  unfolding after_quiet
  join_quietly [] env = (env, some tt)
  join_quietly (w ∷ ws) env = after_quiet (join_quietly ws) (iteration c order [] w (others env))

  -- `none` if the caller blocks.
  unfoldable pub drop : Runtime types → Env types → Env types × Option (Unit {0})
  unfolding join_quietly
  drop rt env =
      let joined = join_quietly (shutdown rt).handles env in
      if env.shared.running then joined else (env, some tt)

  after_join-quiet :
      (next : Env types → Joined types) (next' : Env types → Env types × Option (Unit {0}))
      (r : Env types × Outcome (Next types))
      → ((env : Env types)
          → (next env).1 ≡ some (returned tt)
          → next' env ≡ ((next env).0, some tt))
      → (after_join next r).1 ≡ some (returned tt)
      → after_quiet next' r ≡ ((after_join next r).0, some tt)
  unfolding after_join after_quiet
  after_join-quiet next next' (env, panicked m) k h = absurd cc
  after_join-quiet next next' (env, returned (goes_on w)) k h = absurd cc
  after_join-quiet next next' (env, returned (returns w)) k h = k (drop_worker w env) h

  join_all-quietly :
      (ws : List (Worker types)) (env : Env types)
      → (join_all c order others ws env).1 ≡ some (returned tt)
      → join_quietly ws env ≡ ((join_all c order others ws env).0, some tt)
  unfolding join_all join_quietly
  join_all-quietly [] env h = refl
  join_all-quietly (w ∷ ws) env h =
      after_join-quiet _ _ (iteration c order [] w (others env)) (join_all-quietly ws) h

  -- A runtime that is dropped while it runs, in a state as in `run-shuts_down`: the drop does what
  -- `run` does and does not block, as no hook or handler of a script waits for the answer to a send;
  -- afterwards `send` and `do_send` to the addresses of its
  -- workers fail with the error of the shutdown.
  pub drop-shuts_down :
      (calm : Calm c) (txs : List ℕ) (n : ℕ) (rt : Runtime types) (env : Env types)
      (addr : Addr types) (msg : c.Msg)
      → ((shut : List ℕ) (e : Env types) → Held txs n shut e → Held txs n shut (others e))
      → Placed txs n rt.handles
      → Held txs n [] env
      → env.shared.running ≡ true
      → contains (map (λ (w : Worker types). w.msg_rx) rt.handles) addr.tx ≡ true
      → (drop rt env ≡ ((run c order others rt env).0, some tt))
        × ((do_send addr msg (drop rt env).0).1 ≡ failed runtime_shutdown)
        × ((send addr msg (drop rt env).0).1 ≡ failed runtime_shutdown)
  unfolding drop run
  drop-shuts_down calm txs n rt env addr msg keep placed h on its =
      let (joined, no_send, no_ask) =
        run-shuts_down c calm order others txs n keep rt env addr msg placed h its in
      let same : drop rt env ≡ ((run c order others rt env).0, some tt) =
        ap (λ (b : Bool). if b then join_quietly (shutdown rt).handles env else (env, some tt)) on
        ∙ join_all-quietly (shutdown rt).handles env joined in
      (same, rw same no_send, rw same no_ask)
