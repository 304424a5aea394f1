-- ===== src/Runtime/Steps.antt =====
-- src/runtime.rs: the worker threads, the spawns and the sends of other threads, in any order.
use actinium_actor.Prelude.{
  ℕ, contains, true, zero, suc, ◌+◌, ◌<◌, ◌≡◌, refl, subst, ◌∙◌, false, some, List, [], get_elem?,
  length-set, set, arith,
}
use actinium_actor.Outcome.{Outcome, returned, Returns}
use actinium_actor.Actor.{Types, Code, Addr}
use actinium_actor.Actor.Store.{Mail, Env, do_send, send}
use actinium_actor.Worker.{Worker, ControlMsg, Next, goes_on, iteration}
use actinium_actor.Worker.Receive.{Calm}
use actinium_actor.Worker.Held.{Held, held, channel_send-Held}
use actinium_actor.Worker.Run.{has_shutdown}
use actinium_actor.Worker.Forever.{Runs, iteration-Runs}
use actinium_actor.Runtime.{Runtime, range, with_threads, control, spawn}
use actinium_actor.Runtime.Placement.{zero_plus}
use actinium_actor.Runtime.Threads.{
  Quiet, Quiet-at, Quiet-set, has_shutdown-spawn_actor, Placed-at, Placed-set, Quiet-start_workers,
  Numbered, Numbered-set, Numbered-start_workers, get_elem?-range,
}
use actinium_actor.Runtime.Sent.{Sent, spawn-Sent, at_result}
use actinium_actor.Runtime.Sound.{Sound, with_threads-Sound, spawn-Ensures}

module _ (c : Code) (order : List ℕ → List ℕ) where
  open c use {types, Any}

  -- One step of a runtime that has not been shut down: an iteration of a worker's loop, a spawn, or a
  -- send from outside. `late` is what reaches the worker while it waits.
  pub data Step : Runtime types → Env types → Runtime types → Env types → Type 0 where
    iterates :
        (rt : Runtime types) (env env' : Env types) (i : ℕ) (late : List (Mail types))
        (w w' : Worker types)
        → get_elem? rt.handles i ≡ some w
        → iteration c order late w env ≡ (env', returned (goes_on w'))
        → Step rt env (record { handles = set rt.handles i w' }) env'
    spawns :
        (rt rt' : Runtime types) (env env' : Env types) (actor : Any) (addr : Addr types)
        → spawn c actor rt env ≡ (env', returned (rt', addr))
        → Step rt env rt' env'
    posts :
        (rt : Runtime types) (env : Env types) (addr : Addr types) (msg : c.Msg)
        → Step rt env rt (do_send addr msg env).0
    asks :
        (rt : Runtime types) (env : Env types) (addr : Addr types) (msg : c.Msg)
        → Step rt env rt (send addr msg env).0

  -- What a runtime with `n` threads comes to, whose channels have the names from `first`.
  pub data Reach (first n : ℕ) : Runtime types → Env types → Type 0 where
    starts :
        (env : Env types) (rt : Runtime types)
        → (with_threads first n env).1 ≡ returned rt
        → Reach first n rt (with_threads first n env).0
    later :
        {rt rt' : Runtime types} {env env' : Env types}
        → Reach first n rt env
        → Step rt env rt' env'
        → Reach first n rt' env'

-- A sound runtime that nobody has shut down.
pub record Alive {t : Types} (txs : List ℕ) (n : ℕ) (rt : Runtime t) (env : Env t) : Type 0 where
  pub sound : Sound txs n rt env
  pub quiet : Quiet rt.handles
  pub numbered : Numbered txs 0 rt.handles

module _ (c : Code) where
  open c use {types, Any}

  module _ (calm : Calm c) (order : List ℕ → List ℕ) (txs : List ℕ) (n : ℕ) (pos_ : 0 < n) where
    iterates-Alive :
        (rt : Runtime types) (env : Env types) (i : ℕ) (late : List (Mail types)) (w : Worker types)
        → get_elem? rt.handles i ≡ some w
        → Alive txs n rt env
        → Held txs n [] (iteration c order late w env).0
          × Runs w.msg_rx w.worker_idx false (iteration c order late w env).1
    iterates-Alive rt env i late w at h =
        let (has, fits, v) = Placed-at txs n rt.handles i w at h.sound.placed in
        rw (← Quiet-at rt.handles i w at h.quiet) (
          iteration-Runs c calm order txs n [] w.msg_rx w.worker_idx has fits late w env
            (refl, refl, refl) h.sound.shared v)

    shares :
        (rt : Runtime types) (env env' : Env types)
        → Sound txs n rt env
        → Held txs n [] env'
        → Sound txs n rt env'
    shares rt env env' s h = record {
      workers = s.workers;
      senders = s.senders;
      placed = s.placed;
      shared = h;
    }

    send-Held :
        (addr : Addr types) (msg : c.Msg) (env : Env types)
        → Held txs n [] env
        → Held txs n [] (send addr msg env).0
    unfolding send
    send-Held addr msg env h =
        channel_send-Held txs n [] addr.tx
          (record {
            actor_id = addr.actor_id;
            dispatch = record { kind = addr.kind; msg = msg; reply = some env.next_reply };
          })
          (record env { next_reply = env.next_reply + 1 })
          (record {
            senders = h.senders;
            channels = h.channels;
            closed = h.closed;
            maps = h.maps;
            count = h.count;
          })

    Step-Alive :
        {rt rt' : Runtime types} {env env' : Env types}
        → Step c order rt env rt' env'
        → Alive txs n rt env
        → Alive txs n rt' env'
    Step-Alive (iterates rt env env' i late w w' at eq) h =
        let (has, fits, _) = Placed-at txs n rt.handles i w at h.sound.placed in
        let (held', (_, is, v)) =
          subst
            (λ (y : Env types × Outcome (Next types)).
              Held txs n [] y.0 × Runs w.msg_rx w.worker_idx false y.1)
            eq (iterates-Alive rt env i late w at h) in
        record {
          sound = record {
            workers = length-set rt.handles i w' ∙ h.sound.workers;
            senders = h.sound.senders;
            placed =
                Placed-set txs n rt.handles i w' (rw (is.0) has) (rw (is.1) fits) v h.sound.placed;
            shared = held';
          };
          quiet = Quiet-set rt.handles i w' (unfold has_shutdown in rw (is.2) refl) h.quiet;
          numbered = Numbered-set txs 0 i rt.handles w w' at is.0 is.1 h.numbered;
        }
    Step-Alive (spawns rt rt' env env' actor addr eq) h =
        let s =
          at_result c (λ x e. Sent c rt e x) (spawn c actor rt env) env' (rt', addr) eq
            (spawn-Sent c actor rt env) in
        record {
          sound =
              (at_result c (λ x e. Sound txs n x.0 e × (contains txs x.1.tx ≡ true))
                (spawn c actor rt env) env' (rt', addr) eq
                (spawn-Ensures c txs n actor rt env pos_ h.sound)).0;
          quiet = rw (s.handles) (
              Quiet-set rt.handles s.i
                (control (ControlMsg.spawn_actor addr.actor_id s.cell addr.actor_id) s.w)
                (unfold control in
                  has_shutdown-spawn_actor s.w.control_rx addr.actor_id s.cell addr.actor_id
                  ∙ Quiet-at rt.handles s.i s.w s.at h.quiet)
                h.quiet);
          numbered = rw (s.handles) (
              Numbered-set txs 0 s.i rt.handles s.w
                (control (ControlMsg.spawn_actor addr.actor_id s.cell addr.actor_id) s.w) s.at
                (unfold control in refl) (unfold control in refl) h.numbered);
        }
    Step-Alive (posts rt env addr msg) h = record {
      sound = shares rt env _ h.sound ((held c txs n []).sends addr msg env h.sound.shared);
      quiet = h.quiet;
      numbered = h.numbered;
    }
    Step-Alive (asks rt env addr msg) h = record {
      sound = shares rt env _ h.sound (send-Held addr msg env h.sound.shared);
      quiet = h.quiet;
      numbered = h.numbered;
    }

  with_threads-Quiet :
      (first n : ℕ) (env : Env types)
      → 0 < n
      → Returns (with_threads first n env).1 (λ rt. Quiet rt.handles)
  unfolding with_threads
  with_threads-Quiet first zero env lt = absurd (omega arith)
  with_threads-Quiet first (suc n) env lt = Quiet-start_workers types first 0 (suc n)

  with_threads-Numbered :
      (first n : ℕ) (env : Env types)
      → 0 < n
      → Returns (with_threads first n env).1 (λ rt. Numbered (range first n) 0 rt.handles)
  unfolding with_threads
  with_threads-Numbered first zero env lt = absurd (omega arith)
  with_threads-Numbered first (suc n) env lt =
      Numbered-start_workers types (range first (suc n)) first 0 (suc n)
        (λ j lt'. rw (zero_plus j) (get_elem?-range first (suc n) j lt'))

  pub Reach-Alive :
      (order : List ℕ → List ℕ) (first n : ℕ) (rt : Runtime types) (env : Env types)
      → Calm c
      → 0 < n
      → Reach c order first n rt env
      → Alive (range first n) n rt env
  Reach-Alive order first n rt env calm pos_ (starts env' _ eq) = record {
    sound =
        subst (λ o. Returns o (λ x. Sound (range first n) n x env)) eq
          (with_threads-Sound first n env' pos_);
    quiet =
        subst (λ (o : Outcome (Runtime types)). Returns o (λ x. Quiet x.handles)) eq
          (with_threads-Quiet first n env' pos_);
    numbered =
        subst
          (λ (o : Outcome (Runtime types)). Returns o (λ x. Numbered (range first n) 0 x.handles))
          eq (with_threads-Numbered first n env' pos_);
  }
  Reach-Alive order first n rt env calm pos_ (later r s) =
      Step-Alive calm order (range first n) n pos_ s (Reach-Alive order first n _ _ calm pos_ r)

  -- Any spawns, sends and iterations of workers, in any order, from the start of a runtime with a
  -- thread or more, where no `stopped` panics: the runtime has its workers, each with its channel, a
  -- sender of it, an actor map and a valid scheduler, and the next iteration of any of them goes on:
  -- no thread panics or returns, whatever the handlers do, and the scheduler stays valid.
  pub Reach-goes_on :
      (order : List ℕ → List ℕ) (first n i : ℕ) (late : List (Mail types)) (rt : Runtime types)
      (env : Env types) (w : Worker types)
      → Calm c
      → 0 < n
      → Reach c order first n rt env
      → get_elem? rt.handles i ≡ some w
      → Sound (range first n) n rt env
        × Runs w.msg_rx w.worker_idx false (iteration c order late w env).1
  Reach-goes_on order first n i late rt env w calm pos_ reached at =
      let alive = Reach-Alive order first n rt env calm pos_ reached in
      (alive.sound, (iterates-Alive calm order (range first n) n pos_ rt env i late w at alive).1)
