-- ===== src/Runtime/Sound.antt =====
-- src/runtime.rs: what a runtime keeps from its start over its spawns.
use actinium_actor.Prelude.{
  ℕ, zero, suc, ◌+◌, ◌<◌, ◌≤◌, ◌≡◌, refl, ap, ◌∙◌, true, some, List, [], ◌∷◌, contains, get_elem?,
  get_elem?-lt, length, length-set, set, arith, Bool-cases, inl, inr,
}
use actinium_actor.Outcome.{Outcome, returned, panicked, Returns, Ensures}
use actinium_actor.Scheduler.Invariant.{new-Valid}
use actinium_actor.Actor.{Types, Code}
use actinium_actor.Actor.Store.{Env, allocate_id, pick_worker}
use actinium_actor.Actor.Exec.{Context, End, finished, unwound, exec}
use actinium_actor.Actor.Frame.{exec-Inv}
use actinium_actor.Worker.{Worker, ControlMsg}
use actinium_actor.Worker.Run.{has_shutdown}
use actinium_actor.Worker.Held.{Held, held}
use actinium_actor.Runtime.{
  Runtime, range, new_worker, start_workers, with_threads, control, send_control,
  spawn_actor_remote, address, spawn_started, spawn, place,
}
use actinium_actor.Runtime.Placement.{contains-range, length-empty_maps, open_channels-get, fresh}
use actinium_actor.Runtime.Threads.{Placed, Placed-at, Placed-set}

-- `n` workers, each with its channel, and what they need of the shared state.
pub record Sound {t : Types} (txs : List ℕ) (n : ℕ) (rt : Runtime t) (env : Env t) : Type 0 where
  pub workers : length rt.handles ≡ n
  pub senders : length txs ≡ n
  pub placed : Placed txs n rt.handles
  pub shared : Held txs n [] env

length-range : (first n : ℕ) → length (range first n) ≡ n
unfolding range
length-range first zero = refl
length-range first (suc n) = ap suc (length-range (first + 1) n)

contains-get_elem? : (xs : List ℕ) (i x : ℕ) → get_elem? xs i ≡ some x → contains xs x ≡ true
contains-get_elem? [] i x h = absurd cc
contains-get_elem? (y ∷ xs) zero x h = ground arith
contains-get_elem? (y ∷ xs) (suc i) x h = ground (arith, contains-get_elem? xs i x h)

range-bounds : (first n k : ℕ) → contains (range first n) k ≡ true → (first ≤ k) × (k < first + n)
unfolding range
range-bounds first zero k h = absurd cc
range-bounds first (suc n) k h = ground (arith, range-bounds (first + 1) n k)

length-start_workers : (t : Types) (first i n : ℕ) → length (start_workers {t = t} first i n) ≡ n
unfolding start_workers
length-start_workers t first i zero = refl
length-start_workers t first i (suc n) = ap suc (length-start_workers t (first + 1) (i + 1) n)

Placed-start_workers :
    (t : Types) (txs : List ℕ) (first i n m : ℕ)
    → ((k : ℕ) → first ≤ k → k < first + n → contains txs k ≡ true)
    → i + n ≤ m
    → Placed txs m (start_workers {t = t} first i n)
unfolding start_workers new_worker
Placed-start_workers t txs first i zero m h le = tt
Placed-start_workers t txs first i (suc n) m h le = (
  h first (omega arith) (omega arith),
  omega arith,
  new-Valid,
  Placed-start_workers t txs (first + 1) (i + 1) n m (λ k a b. h k (omega arith) (omega arith))
      (omega arith),
)

module _ {t : Types} where
  -- On a positive number of threads the runtime starts sound.
  pub with_threads-Sound :
      (first n : ℕ) (env : Env t)
      → 0 < n
      → Returns
          (with_threads first n env).1
          (λ rt. Sound (range first n) n rt (with_threads first n env).0)
  unfolding with_threads
  with_threads-Sound first zero env lt = absurd (omega arith)
  with_threads-Sound first (suc n) env lt = record {
    workers = length-start_workers t first 0 (suc n);
    senders = length-range first (suc n);
    placed =
        Placed-start_workers t (range first (suc n)) first 0 (suc n) (suc n)
          (contains-range first (suc n)) (omega arith);
    shared = record {
      senders = refl;
      channels = λ m h.
          let (low, high) = range-bounds first (suc n) m h in
          (fresh, open_channels-get first (suc n) m env.channels low high);
      closed = λ m h. absurd cc;
      maps = length-empty_maps t (suc n);
      count = refl;
    };
  }

  Placed-control :
      (txs : List ℕ) (n i : ℕ) (ws : List (Worker t)) (w : Worker t) (msg : ControlMsg t)
      → get_elem? ws i ≡ some w
      → Placed txs n ws
      → Placed txs n (set ws i (control msg w))
  unfolding control
  Placed-control txs n i ws w msg h p =
      let (has, lt, v) = Placed-at txs n ws i w h p in
      Placed-set txs n ws i (control msg w) has lt v p

  -- If the control message is sent, the sender is one of a worker's channel.
  send_control-Placed :
      (txs : List ℕ) (n i : ℕ) (msg : ControlMsg t) (ws : List (Worker t))
      → i < length ws
      → i < length txs
      → Placed txs n ws
      → Ensures
          (send_control i msg ws (get_elem? ws i) (get_elem? txs i))
          (λ x. (length x.0 ≡ length ws) × Placed txs n x.0 × (contains txs x.1 ≡ true))
  unfolding send_control
  send_control-Placed txs n i msg ws lt lt' p =
      let (w, at) = get_elem?-lt ws i lt in
      let (tx, at') = get_elem?-lt txs i lt' in
      elim (Bool-cases (has_shutdown w.control_rx)) [
        | inl shut ↦ rw (at, at', shut) tt
        | inr open_ ↦
            rw (at, at', open_)
              (
                length-set ws i (control msg w),
                Placed-control txs n i ws w msg at p,
                contains-get_elem? txs i tx at',
              )
      ]

module _ (c : Code) (txs : List ℕ) (n : ℕ) where
  open c use {types, Any}

  spawn_started-Ensures :
      (id i : ℕ) (rt : Runtime types) (r : Env types × End types Any)
      → i < n
      → Sound txs n rt r.0
      → Ensures
          (spawn_started c id i rt r).1
          (λ x. Sound txs n x.0 (spawn_started c id i rt r).0 × (contains txs x.1.tx ≡ true))
  unfolding spawn_started spawn_actor_remote address
  spawn_started-Ensures id i rt (env, unwound _ m) lt s = tt
  spawn_started-Ensures id i rt (env, finished actor _) lt s =
      let msg : ControlMsg types =
        ControlMsg.spawn_actor id (record { actor = actor; on_stop = c.type_of actor }) id in
      sent (send_control i msg rt.handles (get_elem? rt.handles i) (get_elem? env.shared.msg_txs i))
        (rw (s.shared.senders) (
          send_control-Placed txs n i msg rt.handles (rw (s.workers) lt) (rw (s.senders) lt)
            s.placed))
    where
      sent :
          (o : Outcome (List (Worker types) × ℕ))
          → Ensures o
              (λ x. (length x.0 ≡ length rt.handles) × Placed txs n x.0 × (contains txs x.1 ≡ true))
          → Ensures (address c id (c.type_of actor) env o).1 (λ x.
            Sound txs n x.0 (address c id (c.type_of actor) env o).0 × (contains txs x.1.tx ≡ true))
      sent (panicked m) h = tt
      sent (returned (ws, tx)) h = (
        record { workers = h.0 ∙ s.workers; senders = s.senders; placed = h.1; shared = s.shared },
        h.2,
      )

  place-Held :
      (env : Env types)
      → Held txs n [] env
      → Held txs n [] (record env { shared = (place env.shared).1 })
  unfolding place allocate_id pick_worker
  place-Held env h = record {
    senders = h.senders;
    channels = h.channels;
    closed = h.closed;
    maps = h.maps;
    count = h.count;
  }

  place-lt : (env : Env types) → Held txs n [] env → 0 < n → (place env.shared).0.1 < n
  unfolding place allocate_id pick_worker
  place-lt env h pos_ = rw (h.count) (omega arith)

  started-Sound :
      (actor : Any) (rt : Runtime types) (env : Env types) (ctx : Context)
      → Sound txs n rt env
      → Sound txs n rt
          (exec c (c.started actor) ctx (record env { shared = (place env.shared).1 })).0
  started-Sound actor rt env ctx s = record {
    workers = s.workers;
    senders = s.senders;
    placed = s.placed;
    shared =
        exec-Inv c (Held txs n []) (held c txs n []) (c.started actor) ctx _
          (place-Held env s.shared);
  }

  -- A spawn that returns leaves the runtime sound, whatever `started` does, and its address has a sender
  -- of a worker's channel.
  pub spawn-Ensures :
      (actor : Any) (rt : Runtime types) (env : Env types)
      → 0 < n
      → Sound txs n rt env
      → Ensures
          (spawn c actor rt env).1
          (λ x. Sound txs n x.0 (spawn c actor rt env).0 × (contains txs x.1.tx ≡ true))
  unfolding spawn
  spawn-Ensures actor rt env lt s =
      spawn_started-Ensures _ _ rt _ (place-lt env s.shared lt) (started-Sound actor rt env _ s)
