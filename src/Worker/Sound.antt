-- ===== src/Worker/Sound.antt =====
-- Every step of a worker keeps what the worker needs, and returns where no `stopped` panics.
use actinium_actor.Prelude.{
  ℕ, ◌≡◌, ◌∙◌, Option, none, some, List, [], ◌∷◌, ◌<◌, get_elem?-lt, length-set, Bool-cases, inl,
  inr,
}
use actinium_actor.HashMap.{get, remove, insert, keys}
use actinium_actor.Outcome.{Outcome, returned, panicked, Returns}
use actinium_actor.Scheduler.{pending}
use actinium_actor.Actor.{Types, Code}
use actinium_actor.Actor.Store.{Mail, ActorCell, SpawnShared, Env}
use actinium_actor.Actor.Exec.{Context, is_running, End, finished, unwound}
use actinium_actor.Actor.Call.{call_on_stop}
use actinium_actor.Actor.Spawner
use actinium_actor.Actor.Frame.{call_dispatch-Inv, call_on_stop-Inv}
use actinium_actor.Worker.{
  Worker, ControlMsg, Next, goes_on, returns, actor_map, forget, after_stop, after_handle, dispatch,
  dispatch_to, stop_taken, stop_actor, stop_ids, stop_all_actors, leave, and_then,
}
use actinium_actor.Worker.Receive.{Finishes, Calm}
use actinium_actor.Worker.Held.{Held, held, replies-Held, drop_all-Held, set_actor_map-Held}

-- The worker with the channel `m`, the actor map `i` and the waiting control messages `q`.
abbrev pub Is : {t : Types} → ℕ → ℕ → List (ControlMsg t) → Worker t → Type 0
Is m i q w = (w.msg_rx ≡ m) × (w.worker_idx ≡ i) × (w.control_rx ≡ q)

abbrev pub worker_of : {t : Types} → Next t → Worker t
worker_of (goes_on w) = w
worker_of (returns w) = w

-- The worker with the channel `m` returns.
abbrev pub Leaves : {t : Types} → ℕ → Next t → Type 0
Leaves m (goes_on w) = ⊥
Leaves m (returns w) = w.msg_rx ≡ m

-- A step that returns the same worker, which still has what it needs.
abbrev pub Stays :
    {t : Types}
    → List ℕ
    → ℕ
    → List ℕ
    → ℕ
    → ℕ
    → List (ControlMsg t)
    → Env t × Outcome (Worker t)
    → Type 0
Stays txs n shut m i q r = Held txs n shut r.0 × Returns r.1 (Is m i q)

abbrev pub StaysNext :
    {t : Types}
    → List ℕ
    → ℕ
    → List ℕ
    → ℕ
    → ℕ
    → List (ControlMsg t)
    → Env t × Outcome (Next t)
    → Type 0
StaysNext txs n shut m i q r = Held txs n shut r.0 × Returns r.1 (λ n. Is m i q (worker_of n))

module _ (c : Code) (calm : Calm c) (txs : List ℕ) (n : ℕ) (shut : List ℕ) (m i : ℕ)
    (q : List (ControlMsg c.types)) (fits : i < n) where
  open c use {types, Any}

  forget-Stays :
      (a : ℕ) (w : Worker types) (env : Env types)
      → Is m i q w
      → Held txs n shut env
      → Stays txs n shut m i q (forget a w env)
  unfolding forget
  forget-Stays a w env is h = (drop_all-Held c txs n shut (pending w.scheduler a) env h, is)

  after_stop-Stays :
      (a : ℕ) (w : Worker types) (r : Env types × End types Any)
      → Is m i q w
      → Finishes r.1
      → Held txs n shut r.0
      → Stays txs n shut m i q (after_stop a w r)
  unfolding after_stop
  after_stop-Stays a w (env, unwound _ e) is fin h = absurd fin
  after_stop-Stays a w (env, finished _ _) is fin h = forget-Stays a w env is h

  stopped-Stays :
      (a : ℕ) (cell : ActorCell types) (ctx : Context) (w : Worker types) (env : Env types)
      → Is m i q w
      → Held txs n shut env
      → Stays txs n shut m i q (after_stop a w (call_on_stop c cell ctx env))
  stopped-Stays a cell ctx w env is h =
      after_stop-Stays a w (call_on_stop c cell ctx env) is (calm cell ctx env) (
        call_on_stop-Inv c (Held txs n shut) (held c txs n shut) (replies-Held c txs n shut) cell
          ctx env h)

  after_handle-Stays :
      (a : ℕ) (cell : ActorCell types) (w : Worker types) (r : Env types × End types Any)
      → Is m i q w
      → Held txs n shut r.0
      → Stays txs n shut m i q (after_handle c a cell w r)
  unfolding after_handle
  after_handle-Stays a cell w (env, unwound actor _) is h =
      stopped-Stays a (record cell { actor = actor }) _ w env is h
  after_handle-Stays a cell w (env, finished actor ctx) is h = elim (Bool-cases (is_running ctx)) [
    | inl on ↦ rw on (set_actor_map-Held txs n shut w (insert a _ (actor_map w env)) env h, is)
    | inr off ↦ rw off (stopped-Stays a (record cell { actor = actor }) _ w env is h)
  ]

  dispatch_to-Stays :
      (e : Mail types) (w : Worker types) (o : Option (ActorCell types)) (env : Env types)
      → Is m i q w
      → Held txs n shut env
      → Stays txs n shut m i q (dispatch_to c e w o env)
  unfolding dispatch_to
  dispatch_to-Stays e w none env is h = (drop_all-Held c txs n shut (e ∷ []) env h, is)
  dispatch_to-Stays e w (some cell) env is h = after_handle-Stays e.actor_id cell w _ is (
      call_dispatch-Inv c (Held txs n shut) (held c txs n shut) (replies-Held c txs n shut)
        e.dispatch cell.actor _ _
        (set_actor_map-Held txs n shut w (remove e.actor_id (actor_map w env)) env h))

  pub dispatch-Stays :
      (e : Mail types) (w : Worker types) (env : Env types)
      → Is m i q w
      → Held txs n shut env
      → Stays txs n shut m i q (dispatch c e w env)
  unfolding dispatch
  dispatch-Stays e w env is h = dispatch_to-Stays e w (get (actor_map w env) e.actor_id) env is h

  -- `remove_actor` finds the worker's map, and neither the senders nor the number of maps changes.
  taken-Held :
      (a : ℕ) (env : Env types)
      → Held txs n shut env
      → Returns
          (Spawner.remove_actor a i env.shared)
          (λ x. Held txs n shut (record env { shared = x.1 }))
  unfolding Spawner.remove_actor Spawner.take_cell
  taken-Held a env h =
      let (map, there) = get_elem?-lt env.shared.actor_maps i (rw (h.maps) fits) in
      rw there (record {
        senders = h.senders;
        count = h.count;
        channels = h.channels;
        closed = h.closed;
        maps = length-set env.shared.actor_maps i (remove a map) ∙ h.maps;
      })

  stop_taken-Stays :
      (a : ℕ) (w : Worker types) (env : Env types)
      (o : Outcome (Option (ActorCell types) × SpawnShared types))
      → Is m i q w
      → Returns o (λ x. Held txs n shut (record env { shared = x.1 }))
      → Stays txs n shut m i q (stop_taken c a w env o)
  unfolding stop_taken
  stop_taken-Stays a w env (panicked e) is h = absurd h
  stop_taken-Stays a w env (returned (none, shared)) is h = forget-Stays a w _ is h
  stop_taken-Stays a w env (returned (some cell, shared)) is h = stopped-Stays a cell _ w _ is h

  stop_actor-Stays :
      (a : ℕ) (w : Worker types) (env : Env types)
      → Is m i q w
      → Held txs n shut env
      → Stays txs n shut m i q (stop_actor c a w env)
  unfolding stop_actor
  stop_actor-Stays a w env is h = stop_taken-Stays a w env _ is (rw (is.1) (taken-Held a env h))

  pub and_then-Stays :
      {X : Type 0} (P : X → Type 0) (r : Env types × Outcome (Worker types))
      (next : Worker types → Env types → Env types × Outcome X)
      → Stays txs n shut m i q r
      → ((w : Worker types) (env : Env types)
          → Is m i q w
          → Held txs n shut env
          → Held txs n shut (next w env).0 × Returns (next w env).1 P)
      → Held txs n shut (and_then c r next).0 × Returns (and_then c r next).1 P
  and_then-Stays P (env, panicked e) next h k = absurd (h.1)
  and_then-Stays P (env, returned w) next h k = k w env h.1 h.0

  stop_ids-Stays :
      (ids : List ℕ) (w : Worker types) (env : Env types)
      → Is m i q w
      → Held txs n shut env
      → Stays txs n shut m i q (stop_ids c ids w env)
  unfolding stop_ids
  stop_ids-Stays [] w env is h = (h, is)
  stop_ids-Stays (a ∷ ids) w env is h =
      and_then-Stays (Is m i q) (stop_actor c a w env) (stop_ids c ids)
        (stop_actor-Stays a w env is h) (stop_ids-Stays ids)

  pub leave-StaysNext :
      (order : List ℕ → List ℕ) (w : Worker types) (env : Env types)
      → Is m i q w
      → Held txs n shut env
      → StaysNext txs n shut m i q (leave c order w env)
  unfolding leave stop_all_actors
  leave-StaysNext order w env is h =
      and_then-Stays (λ n. Is m i q (worker_of n)) _ _
        (stop_ids-Stays (order (keys (actor_map w env))) w env is h) (λ w' env' is' h'. (h', is'))

  -- A worker that leaves returns.
  pub leave-Leaves :
      (order : List ℕ → List ℕ) (w : Worker types) (env : Env types)
      → Is m i q w
      → Held txs n shut env
      → Held txs n shut (leave c order w env).0 × Returns (leave c order w env).1 (Leaves m)
  unfolding leave stop_all_actors
  leave-Leaves order w env is h =
      and_then-Stays (Leaves m) _ _ (stop_ids-Stays (order (keys (actor_map w env))) w env is h)
        (λ w' env' is' h'. (h', is'.0))
