-- ===== src/Worker/Oldest.antt =====
-- The oldest message of an actor, through arrivals and turns of the scheduler.
use actinium_actor.Prelude.{
  contains, ℕ, suc, ◌≡◌, refl, sym, ap, ◌∙◌, Bool, true, false, Option, some, List, [], ◌∷◌, ◌++◌,
  ◌==◌, ==_iff, Bool-cases, arith, inl, inr, ◌⊎◌, length,
}
use actinium_actor.HashMap.{get}
use actinium_actor.Scheduler.{Scheduler, enqueue, turn, pending}
use actinium_actor.Scheduler.Invariant.{Valid, contains-enqueue}
use actinium_actor.Scheduler.Mail.{pending-enqueue, tail_of}
use actinium_actor.Scheduler.Turn.{Serves, turn-cases, served, pending-served}
use actinium_actor.Scheduler.Fairness.{ahead, served-Moves, enqueue-ahead}
use actinium_actor.Actor.{Types}
use actinium_actor.Actor.Store.{Dispatch, Mail, Env}
use actinium_actor.Worker.{Worker, drain, enqueue_all}
use actinium_actor.Worker.Receive.{queued, drain-scheduler}

-- Message `e` is the oldest that waits for actor `a`, which is in the ready queue.
abbrev pub Oldest : {t : Types} → ℕ → Mail t → Scheduler (Dispatch t) → Type 0
Oldest a e s = (contains s.ready_queue a ≡ true) × ((q : List (Mail _)) × (pending s a ≡ e ∷ q))

module _ {t : Types} (a : ℕ) (e : Mail t) where
  enqueue-Oldest :
      (m : Mail t) (s : Scheduler (Dispatch t)) → Oldest a e s → Oldest a e (enqueue m s)
  enqueue-Oldest m s (h, (q, p)) = (
    ground (arith, contains-enqueue m s a),
    elim (Bool-cases (m.actor_id == a)) [
      | inl same ↦ (q ++ m ∷ [], rw (pending-enqueue m s a, same, p) refl)
      | inr other ↦ (q, rw (pending-enqueue m s a, other) p)
    ],
  )

  enqueue_all-Oldest :
      (l : List (Mail t)) (s : Scheduler (Dispatch t))
      → Oldest a e s
      → Oldest a e (enqueue_all l s)
        × (ahead a (enqueue_all l s).ready_queue ≡ ahead a s.ready_queue)
  unfolding enqueue_all
  enqueue_all-Oldest [] s h = (h, refl)
  enqueue_all-Oldest (m ∷ l) s h =
      let (waits, same) = enqueue_all-Oldest l (enqueue m s) (enqueue-Oldest m s h) in
      (waits, same ∙ enqueue-ahead (λ x. false) a m s h.0)

  pub drain-Oldest :
      (w : Worker t) (env : Env t)
      → Oldest a e w.scheduler
      → Oldest a e (drain w env).1.scheduler
        × (ahead a (drain w env).1.scheduler.ready_queue ≡ ahead a w.scheduler.ready_queue)
  drain-Oldest w env h =
      rw (drain-scheduler w env)
        (enqueue_all-Oldest (queued (get env.channels w.msg_rx)) w.scheduler h)

  -- A turn serves the message, or the actor moves up one place in the queue whose front is `before`.
  abbrev pub Turned : List ℕ → Scheduler (Dispatch t) × Option (Mail t) → Type 0
  Turned before r =
      (m : Mail t) × (r.1 ≡ some m)
      × ((m ≡ e) ⊎ (Oldest a e r.0 × (length before ≡ suc (length (ahead a r.0.ready_queue)))))

  oldest_first :
      (st : Mail t → Bool) (s : Scheduler (Dispatch t)) (t' : Serves st s) (q : List (Mail t))
      → pending s t'.b ≡ e ∷ q
      → t'.e ≡ e
  oldest_first st s t' q p =
      let both : (t'.e ∷ tail_of (pending s t'.b)) ≡ e ∷ q = sym t'.oldest ∙ p in cc

  served-Turned :
      (st : Mail t → Bool) (s : Scheduler (Dispatch t)) (t' : Serves st s)
      → Valid s
      → Oldest a e s
      → Turned (ahead a s.ready_queue) (served st s t'.b t'.queue t'.e, some t'.e)
  served-Turned st s t' v (h, (q, p)) = (
    t'.e,
    refl,
    elim (Bool-cases (t'.b == a)) [
      | inl same ↦ inl (oldest_first st s t' q (ap (λ b. pending s b) ((==_iff t'.b a).0 same) ∙ p))
      | inr other ↦ elim (served-Moves st a s v h t') [
        | inl its ↦ absurd (ground (arith, t'.address, other))
        | inr (waits, up, new) ↦
            inr
              ((waits, (q, rw (pending-served st s t'.b t'.queue v t'.e a, other) p)), ap length up)
      ]
    ],
  )

  pub turn-Turned :
      (st : Mail t → Bool) (s : Scheduler (Dispatch t))
      → Valid s
      → Oldest a e s
      → Turned (ahead a s.ready_queue) (turn st s)
  turn-Turned st s v h = elim (turn-cases st s v) [
    | inl (r, _) ↦ absurd (ground (arith, h.0))
    | inr t' ↦ rw (t'.turned) (served-Turned st s t' v h)
  ]
