-- ===== src/Scheduler/Fairness.antt =====
-- Round robin: while an actor waits, every actor before it in the ready queue is served once, and
-- nobody twice; then it is served itself.
use actinium_actor.Prelude.{
  ℕ, suc, ◌<◌, ◌≡◌, refl, sym, subst, Bool, true, false, some, List, [], ◌∷◌, ◌++◌, contains,
  without, Distinct, if◌then◌else◌, arith, ◌==◌, Bool-cases, ==_iff, inl, inr, ◌⊎◌, ◌≢◌, length,
  contains-append, contains-without, length-without-le,
}
use actinium_actor.Envelope.{Envelope}
use actinium_actor.Scheduler.{Scheduler, new, enqueue, remove_actor, pending, turn, is_empty}
use actinium_actor.Scheduler.Mail.{tail_of}
use actinium_actor.Scheduler.Invariant.{Valid, contains-enqueue}
use actinium_actor.Scheduler.Turn.{Serves, turn-cases, served, ready_queue-served}
use actinium_actor.Scheduler.History.{
  Event, arrives, turns, removes, Spares, list_of, step, run, step-Valid,
}

-- The actors that are served before `a`.
abbrev pub ahead : ℕ → List ℕ → List ℕ
ahead a [] = []
ahead a (x ∷ xs) = let rest = ahead a xs in if x == a then [] else x ∷ rest

ahead-append : (a : ℕ) (xs ys : List ℕ) → contains xs a ≡ true → ahead a (xs ++ ys) ≡ ahead a xs
ahead-append a [] ys h = cc
ahead-append a (x ∷ xs) ys h = ground (arith, ahead-append a xs ys)

ahead-without : (a b : ℕ) (xs : List ℕ) → b ≢ a → ahead a (without b xs) ≡ without b (ahead a xs)
ahead-without a b [] h = refl
ahead-without a b (x ∷ xs) h = ground (arith, ahead-without a b xs h)

contains-ahead :
    (a : ℕ) (xs : List ℕ) (b : ℕ) → contains xs b ≡ false → contains (ahead a xs) b ≡ false
contains-ahead a [] b h = refl
contains-ahead a (x ∷ xs) b h = ground (arith, contains-ahead a xs b)

module _ {ℓ} {D : Type ℓ} where
  abbrev pub turn_count : List (Event D) → ℕ
  turn_count [] = 0
  turn_count (turns ∷ es) = suc (turn_count es)
  turn_count (_ ∷ es) = turn_count es

  -- The actors to which messages were served, in order.
  abbrev pub ids : List (Envelope D) → List ℕ
  ids [] = []
  ids (e ∷ q) = e.actor_id ∷ ids q

  module _ (stops : Envelope D → Bool) (a : ℕ) where
    -- A turn serves `a`, or serves the first actor before it and moves `a` one place up.
    abbrev pub Moves : List ℕ → List ℕ → ℕ → Type 0
    Moves q q' b =
        (b ≡ a)
        ⊎ ((contains q' a ≡ true)
            × (ahead a q ≡ b ∷ ahead a q')
            × (contains (ahead a q') b ≡ false))

    queue-Moves :
        (b : ℕ) (queue : List ℕ) (stop last : Bool)
        → Distinct (b ∷ queue)
        → contains (b ∷ queue) a ≡ true
        → Moves (b ∷ queue) (if stop then queue else (if last then queue else queue ++ b ∷ [])) b
    queue-Moves b queue stop last d h = elim (Bool-cases (b == a)) [
      | inl same ↦ inl ((==_iff b a).0 same)
      | inr other ↦ inr (
          ground (
            arith,
            contains-append queue (b ∷ []) a,
            ahead-append a queue (b ∷ []),
            contains-ahead a queue b,
          ))
    ]

    pub served-Moves :
        (s : Scheduler D)
        → Valid s
        → contains s.ready_queue a ≡ true
        → (t : Serves stops s)
        → Moves s.ready_queue (served stops s t.b t.queue t.e).ready_queue t.e.actor_id
    served-Moves s v h t =
        subst (λ q. Moves q after.ready_queue t.e.actor_id) (sym t.first)
          (subst (λ b. Moves (t.b ∷ t.queue) after.ready_queue b) (sym t.address)
            (rw (ready_queue-served stops s t.b t.queue v t.e t.first) (
              queue-Moves t.b t.queue (stops t.e) (is_empty (tail_of (pending s t.b)))
                (subst Distinct t.first v.distinct) (subst (λ q. contains q a ≡ true) t.first h))))
      where
        after : Scheduler D
        after = served stops s t.b t.queue t.e

    pub turn-Moves :
        (s : Scheduler D)
        → Valid s
        → contains s.ready_queue a ≡ true
        → (e : Envelope D) × ((turn stops s).1 ≡ some e)
          × Moves s.ready_queue (turn stops s).0.ready_queue e.actor_id
    turn-Moves s v h = elim (turn-cases stops s v) [
      | inl (r, t) ↦ absurd (ground arith)
      | inr t ↦ (t.e, rw (t.turned), rw (t.turned) (served-Moves s v h t))
    ]

    -- Arrivals and removals leave what stands before `a`, or shorten it.
    pub enqueue-ahead :
        (e : Envelope D) (s : Scheduler D)
        → contains s.ready_queue a ≡ true
        → ahead a (enqueue e s).ready_queue ≡ ahead a s.ready_queue
    unfolding enqueue
    enqueue-ahead e s h = ground (arith, ahead-append a s.ready_queue (e.actor_id ∷ []))

    remove_actor-ahead :
        (b : ℕ) (s : Scheduler D)
        → b ≢ a
        → ahead a (remove_actor b s).ready_queue ≡ without b (ahead a s.ready_queue)
    unfolding remove_actor
    remove_actor-ahead b s h = ahead-without a b s.ready_queue h

    remove_actor-waits :
        (b : ℕ) (s : Scheduler D)
        → b ≢ a
        → contains s.ready_queue a ≡ true
        → contains (remove_actor b s).ready_queue a ≡ true
    unfolding remove_actor
    remove_actor-waits b s n h = ground (arith, contains-without b s.ready_queue a)

    -- From a valid scheduler: with more turns than there are actors before it, an actor in the ready
    -- queue that is not removed is served, whatever arrives in the meantime.
    pub run-serves :
        (es : List (Event D)) (s : Scheduler D)
        → Valid s
        → contains s.ready_queue a ≡ true
        → Spares a es
        → length (ahead a s.ready_queue) < turn_count es
        → contains (ids (run stops es s).1) a ≡ true
    unfolding run step list_of
    run-serves [] s v h spare n = absurd (omega arith)
    run-serves (arrives e ∷ es) s v h spare n =
        run-serves es (enqueue e s) (step-Valid stops (arrives e) s v)
          (ground (arith, contains-enqueue e s a)) spare (rw (enqueue-ahead e s h) n)
    run-serves (turns ∷ es) s v h spare n =
        let (e, out, m) = turn-Moves s v h in
        rw out (elim m [
          | inl same ↦ ground arith
          | inr (waits, up, _) ↦
              ground
                (arith, run-serves es (turn stops s).0 (step-Valid stops turns s v) waits spare)
        ])
    run-serves (removes b ∷ es) s v h spare n =
        run-serves es (remove_actor b s) (step-Valid stops (removes b) s v)
          (remove_actor-waits b s spare.0 h) spare.1
          (rw (remove_actor-ahead b s spare.0)
            (omega (arith, length-without-le b (ahead a s.ready_queue))))

    -- Of a run that does not serve `a`: whom it serves stood before `a`, and is served once.
    abbrev Once : List ℕ → List ℕ → Type 0
    Once out q = Distinct out × ((b : ℕ) → contains (ahead a q) b ≡ false → contains out b ≡ false)

    Once-cons :
        (b : ℕ) (out q q' : List ℕ)
        → ahead a q ≡ b ∷ ahead a q'
        → contains (ahead a q') b ≡ false
        → Once out q'
        → Once (b ∷ out) q
    Once-cons b out q q' up new o =
        ((o.1 b new, o.0), λ c h. ground (arith, o.1 c, subst (λ l. contains l c ≡ false) up h))

    Once-run :
        (es : List (Event D)) (s : Scheduler D)
        → Valid s
        → contains s.ready_queue a ≡ true
        → Spares a es
        → contains (ids (run stops es s).1) a ≡ false
        → Once (ids (run stops es s).1) s.ready_queue
    unfolding run step list_of
    Once-run [] s v h spare n = (tt, λ b k. refl)
    Once-run (arrives e ∷ es) s v h spare n =
        let ih =
          Once-run es (enqueue e s) (step-Valid stops (arrives e) s v)
            (ground (arith, contains-enqueue e s a)) spare n in
        (ih.0, λ b k. ih.1 b (rw (enqueue-ahead e s h) k))
    Once-run (removes b ∷ es) s v h spare n =
        let ih =
          Once-run es (remove_actor b s) (step-Valid stops (removes b) s v)
            (remove_actor-waits b s spare.0 h) spare.1 n in
        (
          ih.0,
          λ c k. ih.1 c (
              rw (remove_actor-ahead b s spare.0)
                (ground (arith, contains-without b (ahead a s.ready_queue) c))),
        )
    Once-run (turns ∷ es) s v h spare n =
        let (e, out, m) = turn-Moves s v h in
        rw out (elim m [
          | inl same ↦ absurd (ground arith)
          | inr (waits, up, new) ↦
              Once-cons e.actor_id _ s.ready_queue (turn stops s).0.ready_queue up new (
                Once-run es (turn stops s).0 (step-Valid stops turns s v) waits spare
                  (ground arith))
        ])

    -- From a valid scheduler: while an actor in the ready queue is neither served nor removed, nobody
    -- is served twice, and only those before it are served.
    pub run-no_overtaking :
        (es : List (Event D)) (s : Scheduler D)
        → Valid s
        → contains s.ready_queue a ≡ true
        → Spares a es
        → contains (ids (run stops es s).1) a ≡ false
        → Distinct (ids (run stops es s).1)
          × ((b : ℕ)
              → contains (ids (run stops es s).1) b ≡ true
              → contains (ahead a s.ready_queue) b ≡ true)
    run-no_overtaking es s v h spare n =
        let o = Once-run es s v h spare n in (o.0, λ b k. ground (arith, o.1 b))
