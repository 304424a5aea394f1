-- ===== src/Runtime/Threads.antt =====
-- The worker threads of a runtime, one by one.
use actinium_actor.Prelude.{
  ℕ, zero, suc, ◌+◌, ◌<◌, ◌≡◌, refl, subst, ap, sym, ◌∙◌, arith, true, false, some, List, [], ◌∷◌,
  ◌++◌, contains, get_elem?, set,
}
use actinium_actor.Scheduler.Invariant.{Valid}
use actinium_actor.Actor.{Types}
use actinium_actor.Actor.Store.{ActorCell}
use actinium_actor.Worker.{Worker, ControlMsg}
use actinium_actor.Worker.Run.{has_shutdown}
use actinium_actor.Runtime.{range, new_worker, start_workers}
use actinium_actor.Runtime.Placement.{plus_zero, shifts}

-- Workers whose channels are among `txs`, whose actor maps are among `n`, and whose schedulers are valid.
abbrev pub Placed : {t : Types} → List ℕ → ℕ → List (Worker t) → Type 0
Placed txs n [] = Unit {0}
Placed txs n (w ∷ ws) =
    (contains txs w.msg_rx ≡ true) × (w.worker_idx < n) × Valid w.scheduler × Placed txs n ws

-- No worker has a shutdown to take.
abbrev pub Quiet : {t : Types} → List (Worker t) → Type 0
Quiet [] = Unit {0}
Quiet (w ∷ ws) = (has_shutdown w.control_rx ≡ false) × Quiet ws

module _ {t : Types} where
  pub Quiet-at :
      (ws : List (Worker t)) (i : ℕ) (w : Worker t)
      → get_elem? ws i ≡ some w
      → Quiet ws
      → has_shutdown w.control_rx ≡ false
  Quiet-at [] i w h q = absurd cc
  Quiet-at (v ∷ ws) zero w h q =
      let same : v ≡ w = cc in subst (λ (x : Worker t). has_shutdown x.control_rx ≡ false) same q.0
  Quiet-at (v ∷ ws) (suc i) w h q = Quiet-at ws i w h q.1

  pub Quiet-set :
      (ws : List (Worker t)) (i : ℕ) (w : Worker t)
      → has_shutdown w.control_rx ≡ false
      → Quiet ws
      → Quiet (set ws i w)
  Quiet-set [] i w h q = tt
  Quiet-set (v ∷ ws) zero w h q = (h, q.1)
  Quiet-set (v ∷ ws) (suc i) w h q = (q.0, Quiet-set ws i w h q.1)

  pub has_shutdown-spawn_actor :
      (q : List (ControlMsg t)) (id : ℕ) (cell : ActorCell t) (k : ℕ)
      → has_shutdown (q ++ ControlMsg.spawn_actor id cell k ∷ []) ≡ has_shutdown q
  unfolding has_shutdown
  has_shutdown-spawn_actor [] id cell k = refl
  has_shutdown-spawn_actor (ControlMsg.shutdown ∷ q) id cell k = refl
  has_shutdown-spawn_actor (ControlMsg.spawn_actor _ _ _ ∷ q) id cell k =
      has_shutdown-spawn_actor q id cell k

  pub Placed-at :
      (txs : List ℕ) (n : ℕ) (ws : List (Worker t)) (i : ℕ) (w : Worker t)
      → get_elem? ws i ≡ some w
      → Placed txs n ws
      → (contains txs w.msg_rx ≡ true) × (w.worker_idx < n) × Valid w.scheduler
  Placed-at txs n [] i w h p = absurd cc
  Placed-at txs n (v ∷ ws) zero w h p =
      let same : v ≡ w = cc in
      subst
        (λ (x : Worker t). (contains txs x.msg_rx ≡ true) × (x.worker_idx < n) × Valid x.scheduler)
        same (p.0, p.1, p.2)
  Placed-at txs n (v ∷ ws) (suc i) w h p = Placed-at txs n ws i w h p.3

  pub Placed-set :
      (txs : List ℕ) (n : ℕ) (ws : List (Worker t)) (i : ℕ) (w : Worker t)
      → contains txs w.msg_rx ≡ true
      → w.worker_idx < n
      → Valid w.scheduler
      → Placed txs n ws
      → Placed txs n (set ws i w)
  Placed-set txs n [] i w has lt v p = tt
  Placed-set txs n (x ∷ ws) zero w has lt v p = (has, lt, v, p.3)
  Placed-set txs n (x ∷ ws) (suc i) w has lt v p =
      (p.0, p.1, p.2, Placed-set txs n ws i w has lt v p.3)

pub Quiet-start_workers : (t : Types) (first i n : ℕ) → Quiet {t = t} (start_workers first i n)
unfolding start_workers new_worker has_shutdown
Quiet-start_workers t first i zero = tt
Quiet-start_workers t first i (suc n) = (refl, Quiet-start_workers t (first + 1) (i + 1) n)

-- From the worker numbered `i` on: every worker has the channel and the actor map of its number.
abbrev pub Numbered : {t : Types} → List ℕ → ℕ → List (Worker t) → Type 0
Numbered txs i [] = Unit {0}
Numbered txs i (w ∷ ws) =
    (get_elem? txs i ≡ some w.msg_rx) × (w.worker_idx ≡ i) × Numbered txs (i + 1) ws

module _ {t : Types} (txs : List ℕ) where
  pub Numbered-at :
      (i j : ℕ) (ws : List (Worker t)) (w : Worker t)
      → get_elem? ws j ≡ some w
      → Numbered txs i ws
      → (get_elem? txs (i + j) ≡ some w.msg_rx) × (w.worker_idx ≡ i + j)
  Numbered-at i j [] w h p = absurd cc
  Numbered-at i zero (v ∷ ws) w h p =
      let same : v ≡ w = cc in
      rw (plus_zero i) (
        subst (λ (x : Worker t). (get_elem? txs i ≡ some x.msg_rx) × (x.worker_idx ≡ i)) same
          (p.0, p.1))
  Numbered-at i (suc j) (v ∷ ws) w h p = rw (← shifts i j) (Numbered-at (i + 1) j ws w h p.2)

  pub Numbered-set :
      (i j : ℕ) (ws : List (Worker t)) (w w' : Worker t)
      → get_elem? ws j ≡ some w
      → w'.msg_rx ≡ w.msg_rx
      → w'.worker_idx ≡ w.worker_idx
      → Numbered txs i ws
      → Numbered txs i (set ws j w')
  Numbered-set i j [] w w' at rx idx p = tt
  Numbered-set i zero (v ∷ ws) w w' at rx idx p =
      let same : w ≡ v = cc in
      (
        p.0 ∙ ap (λ x. some x) (sym (rx ∙ ap (λ (x : Worker t). x.msg_rx) same)),
        idx ∙ ap (λ (x : Worker t). x.worker_idx) same ∙ p.1,
        p.2,
      )
  Numbered-set i (suc j) (v ∷ ws) w w' at rx idx p =
      (p.0, p.1, Numbered-set (i + 1) j ws w w' at rx idx p.2)

pub Numbered-start_workers :
    (t : Types) (txs : List ℕ) (first i n : ℕ)
    → ((j : ℕ) → j < n → get_elem? txs (i + j) ≡ some (first + j))
    → Numbered txs i (start_workers {t = t} first i n)
unfolding start_workers new_worker
Numbered-start_workers t txs first i zero h = tt
Numbered-start_workers t txs first i (suc n) h = (
  subst (λ x. get_elem? txs x ≡ some first) (plus_zero i)
      (h 0 (omega arith) ∙ ap (λ x. some x) (plus_zero first)),
  refl,
  Numbered-start_workers t txs (first + 1) (i + 1) n
      (λ j lt. rw (shifts i j, shifts first j) (h (suc j) (omega arith))),
)

pub get_elem?-range : (first n j : ℕ) → j < n → get_elem? (range first n) j ≡ some (first + j)
unfolding range
get_elem?-range first zero j lt = absurd (omega arith)
get_elem?-range first (suc n) zero lt = rw (plus_zero first) refl
get_elem?-range first (suc n) (suc j) lt =
    rw (← shifts first j) (get_elem?-range (first + 1) n j (omega arith))
