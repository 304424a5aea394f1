-- ===== src/Worker/Forever.antt =====
-- A worker over any number of iterations, whatever its actors and the other threads do.
use actinium_actor.Prelude.{
  ℕ, contains, ◌<◌, ◌≡◌, refl, Bool, true, false, List, [], ◌∷◌, ◌++◌, if◌then◌else◌,
}
use actinium_actor.HashMap.{insert, get}
use actinium_actor.Outcome.{Outcome, returned, panicked, Returns}
use actinium_actor.Scheduler.{Scheduler}
use actinium_actor.Scheduler.Invariant.{Valid}
use actinium_actor.Scheduler.History.{turns, run-Valid}
use actinium_actor.Actor.{Types, Code}
use actinium_actor.Actor.Store.{Dispatch, Mail, Env}
use actinium_actor.Worker.{
  Worker, ControlMsg, spawn_actor, shutdown, Next, goes_on, returns, serve, controls, iteration,
  actor_map,
}
use actinium_actor.Worker.Receive.{Calm, come, queued}
use actinium_actor.Worker.Turn.{Follows, serve-turns}
use actinium_actor.Worker.Held.{Held, set_actor_map-Held}
use actinium_actor.Worker.Sound.{Is, worker_of, leave-Leaves, Leaves}
use actinium_actor.Worker.Serving.{serve-StaysNext}
use actinium_actor.Worker.Run.{Input, again, run, has_shutdown, shuts}

-- How a worker that got a shutdown or not, as `b` says, stands: it has returned exactly if it did,
-- and where it goes on it has taken all control messages and its scheduler is valid.
abbrev pub Runs : {t : Types} → ℕ → ℕ → Bool → Outcome (Next t) → Type 0
Runs m i b (panicked e) = ⊥
Runs m i b (returned (returns w)) = (b ≡ true) × (w.msg_rx ≡ m)
Runs m i b (returned (goes_on w)) = (b ≡ false) × Is m i [] w × Valid w.scheduler

-- What other threads do before an iteration keeps what the workers need.
abbrev pub Keeping : {t : Types} → List ℕ → ℕ → List ℕ → List (Input t) → Type 0
Keeping txs n shut [] = Unit {0}
Keeping txs n shut (x ∷ xs) =
    ((env : Env _) → Held txs n shut env → Held txs n shut (x.others env)) × Keeping txs n shut xs

module _ (c : Code) (calm : Calm c) (order : List ℕ → List ℕ) (txs : List ℕ) (n : ℕ) (shut : List ℕ)
    (m i : ℕ) (has : contains txs m ≡ true) (fits : i < n) where
  open c use {types, Any}

  Follows-Runs :
      (es : (Mail types → Bool) → Scheduler (Dispatch types)) (o : Outcome (Next types))
      → ((stops : Mail types → Bool) → Valid (es stops))
      → Follows es o
      → Returns o (λ n. Is m i [] (worker_of n))
      → Runs m i false o
  Follows-Runs es (panicked e) v f is = f
  Follows-Runs es (returned (returns w)) v f is = absurd f
  Follows-Runs es (returned (goes_on w)) v (b, late, f) is =
      (refl, is, rw f (run-Valid (λ e. b) (come late) (es (λ e. b)) (v (λ e. b))))

  serve-Runs :
      (late : List (Mail types)) (w : Worker types) (env : Env types)
      → Is m i [] w
      → Held txs n shut env
      → Valid w.scheduler
      → Held txs n shut (serve c order late w env).0 × Runs m i false (serve c order late w env).1
  serve-Runs late w env is h v =
      let stay = serve-StaysNext c calm txs n shut m i [] fits order late w env is h in
      (
        stay.0,
        Follows-Runs _ (serve c order late w env).1
            (λ stops.
              run-Valid stops (come (queued (get env.channels w.msg_rx)) ++ turns ∷ []) w.scheduler
                v)
            (serve-turns c calm order late w env
              (rw (is.0) (rw (h.senders) has, (h.channels m has).0, (h.channels m has).1)))
            stay.1,
      )

  Leaves-Runs : (o : Outcome (Next types)) → Returns o (Leaves m) → Runs m i true o
  Leaves-Runs (panicked e) h = h
  Leaves-Runs (returned (goes_on w)) h = absurd h
  Leaves-Runs (returned (returns w)) h = (refl, h)

  controls-Runs :
      (late : List (Mail types)) (q : List (ControlMsg types)) (w : Worker types) (env : Env types)
      → Is m i w.control_rx w
      → Held txs n shut env
      → Valid w.scheduler
      → Held txs n shut (controls c order (serve c order late) q w env).0
        × Runs m i (has_shutdown q) (controls c order (serve c order late) q w env).1
  unfolding controls has_shutdown
  controls-Runs late [] w env is h v =
      serve-Runs late (record w { control_rx = [] }) env (is.0, is.1, refl) h v
  controls-Runs late (shutdown ∷ q) w env is h v =
      let l =
        leave-Leaves c calm txs n shut m i q fits order (record w { control_rx = q }) env
          (is.0, is.1, refl) h in
      (l.0, Leaves-Runs _ l.1)
  controls-Runs late (spawn_actor id cell confirm ∷ q) w env is h v =
      controls-Runs late q (record w { confirmed = w.confirmed ++ confirm ∷ [] }) _
        (is.0, is.1, refl)
        (set_actor_map-Held txs n shut w (insert id cell (actor_map w env)) env h) v

  pub iteration-Runs :
      (late : List (Mail types)) (w : Worker types) (env : Env types)
      → Is m i w.control_rx w
      → Held txs n shut env
      → Valid w.scheduler
      → Held txs n shut (iteration c order late w env).0
        × Runs m i (has_shutdown w.control_rx) (iteration c order late w env).1
  unfolding iteration
  iteration-Runs late w env is h v = controls-Runs late w.control_rx w env is h v

  again-Runs :
      (next : Worker types → Env types → Env types × Outcome (Next types)) (b rest : Bool)
      (r : Env types × Outcome (Next types))
      → ((w : Worker types) (env : Env types)
          → Is m i [] w
          → Held txs n shut env
          → Valid w.scheduler
          → Held txs n shut (next w env).0 × Runs m i rest (next w env).1)
      → Held txs n shut r.0 × Runs m i b r.1
      → Held txs n shut (again next r).0 × Runs m i (if b then true else rest) (again next r).1
  unfolding again
  again-Runs next b rest (env, panicked e) k (h, x) = absurd x
  again-Runs next b rest (env, returned (returns w)) k (h, (x, is)) = rw x (h, (refl, is))
  again-Runs next b rest (env, returned (goes_on w)) k (h, (x, is, v)) = rw x (k w env is h v)

  -- A worker with a channel, an actor map and a valid scheduler, whose actors' `stopped` does not
  -- panic, over any number of iterations: whatever the handlers do, panics included, and whatever
  -- the other threads do that keeps channels, senders and maps, its thread does not panic. It has
  -- returned if an iteration got a shutdown, and otherwise goes on, with the same channel and map, no
  -- control message waiting and a valid scheduler; the channels, senders and maps are kept.
  pub run-Runs :
      (xs : List (Input types)) (w : Worker types) (env : Env types)
      → Keeping txs n shut xs
      → Is m i [] w
      → Held txs n shut env
      → Valid w.scheduler
      → Held txs n shut (run c order xs w env).0 × Runs m i (shuts xs) (run c order xs w env).1
  unfolding run shuts
  run-Runs [] w env keep is h v = (h, (refl, is, v))
  run-Runs (x ∷ xs) w env keep is h v =
      again-Runs (run c order xs) (has_shutdown x.control) (shuts xs) _
        (λ w' env' is' h' v'. run-Runs xs w' env' keep.1 is' h' v')
        (rw (is.2) (
          iteration-Runs x.late (record w { control_rx = x.control }) (x.others env)
            (is.0, is.1, refl) (keep.0 env h) v))
