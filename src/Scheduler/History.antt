-- ===== src/Scheduler/History.antt =====
-- Histories: any sequence of arrivals, turns and removals, as `Worker::run` makes them. The
-- messages of an actor are served in the order of their arrival, and none is lost or made up.
use actinium_actor.Prelude.{
  ℕ, ◌≡◌, refl, sym, ◌∙◌, Bool, false, Option, none, some, List, [], ◌∷◌, ◌++◌, if◌then◌else◌,
  arith, ◌==◌, Bool-cases, ==_of_ne, inl, inr, ◌≢◌, append-nil, append_assoc,
}
use actinium_actor.Envelope.{Envelope}
use actinium_actor.Scheduler.{Scheduler, new, enqueue, remove_actor, pending, turn}
use actinium_actor.Scheduler.Mail.{pending-enqueue, pending-remove_actor}
use actinium_actor.Scheduler.Invariant.{Valid, new-Valid, enqueue-Valid, remove_actor-Valid}
use actinium_actor.Scheduler.Turn.{turn-cases, turn-Valid, pending-served}

pub data Event {ℓ} (D : Type ℓ) : Type ℓ where
  arrives : Envelope D → Event D
  turns : Event D
  removes : ℕ → Event D

module _ {ℓ} {D : Type ℓ} where
  -- The messages of a list that are addressed to an actor.
  unfoldable pub for_actor : ℕ → List (Envelope D) → List (Envelope D)
  for_actor a [] = []
  for_actor a (e ∷ q) = let rest = for_actor a q in if e.actor_id == a then e ∷ rest else rest

  unfoldable pub arrivals : List (Event D) → List (Envelope D)
  arrivals [] = []
  arrivals (arrives e ∷ es) = e ∷ arrivals es
  arrivals (_ ∷ es) = arrivals es

  -- No event removes the actor.
  abbrev pub Spares : ℕ → List (Event D) → Type 0
  Spares a [] = Unit {0}
  Spares a (removes b ∷ es) = (b ≢ a) × Spares a es
  Spares a (_ ∷ es) = Spares a es

  unfoldable pub list_of : Option (Envelope D) → List (Envelope D)
  list_of none = []
  list_of (some e) = e ∷ []

  pub Spares-tail : (a : ℕ) (x : Event D) (es : List (Event D)) → Spares a (x ∷ es) → Spares a es
  Spares-tail a (arrives e) es h = h
  Spares-tail a turns es h = h
  Spares-tail a (removes b) es h = h.1

  pub for_actor-append :
      (a : ℕ) (p q : List (Envelope D)) → for_actor a (p ++ q) ≡ for_actor a p ++ for_actor a q
  unfolding for_actor
  for_actor-append a [] q = refl
  for_actor-append a (e ∷ p) q = ground (arith, for_actor-append a p q)

  module _ (stops : Envelope D → Bool) where
    -- One event: the scheduler after it, and the message that it serves, if any.
    unfoldable pub step : Event D → Scheduler D → Scheduler D × Option (Envelope D)
    step (arrives e) s = (enqueue e s, none)
    step turns s = turn stops s
    step (removes a) s = (remove_actor a s, none)

    unfoldable pub run : List (Event D) → Scheduler D → Scheduler D × List (Envelope D)
    unfolding step list_of
    run [] s = (s, [])
    run (x ∷ es) s =
        let now = step x s in let later = run es now.0 in (later.0, list_of now.1 ++ later.1)

    pub step-Valid : (x : Event D) (s : Scheduler D) → Valid s → Valid (step x s).0
    unfolding step
    step-Valid (arrives e) s v = enqueue-Valid e s v
    step-Valid turns s v = turn-Valid stops s v
    step-Valid (removes a) s v = remove_actor-Valid a s v

    -- Every history keeps the invariant.
    pub run-Valid : (es : List (Event D)) (s : Scheduler D) → Valid s → Valid (run es s).0
    unfolding run
    run-Valid [] s v = v
    run-Valid (x ∷ es) s v = run-Valid es (step x s).0 (step-Valid x s v)

    -- The scheduler is valid after any history that begins with the new one.
    pub run-new-Valid : (es : List (Event D)) → Valid (run es new).0
    run-new-Valid es = run-Valid es new new-Valid

    -- An actor that no message stops.
    abbrev pub Stays : ℕ → Type ℓ
    Stays a = (e : Envelope D) → e.actor_id ≡ a → stops e ≡ false

    pub turn-fifo :
        (a : ℕ) (s : Scheduler D)
        → Valid s
        → Stays a
        → for_actor a (list_of (turn stops s).1) ++ pending (turn stops s).0 a ≡ pending s a
    unfolding for_actor list_of
    turn-fifo a s v stay = elim (turn-cases stops s v) [
      | inl (r, t) ↦ rw t
      | inr t ↦ rw (t.turned) (ground (arith, pending-served stops s t.b t.queue v t.e a, stay t.e))
    ]

    step-fifo :
        (a : ℕ) (x : Event D) (es : List (Event D)) (s : Scheduler D)
        → Valid s
        → Stays a
        → Spares a (x ∷ es)
        → for_actor a (list_of (step x s).1) ++ pending (step x s).0 a ++ for_actor a (arrivals es)
          ≡ pending s a ++ for_actor a (arrivals (x ∷ es))
    unfolding step for_actor arrivals list_of
    step-fifo a (arrives e) es s v stay spare = elim (Bool-cases (e.actor_id == a)) [
      | inl same ↦
          rw (pending-enqueue e s a, same)
            (append_assoc (pending s a) (e ∷ []) (for_actor a (arrivals es)))
      | inr other ↦ rw (pending-enqueue e s a, other)
    ]
    step-fifo a turns es s v stay spare = rw (turn-fifo a s v stay)
    step-fifo a (removes b) es s v stay spare = rw (pending-remove_actor b s a, ==_of_ne spare.0)

    -- From a valid scheduler, in any history that neither removes nor stops an actor, the messages served to it followed by
    -- those that still wait are those that waited followed by those that arrived, in that order.
    pub run-fifo :
        (a : ℕ) (es : List (Event D)) (s : Scheduler D)
        → Valid s
        → Stays a
        → Spares a es
        → for_actor a (run es s).1 ++ pending (run es s).0 a
          ≡ pending s a ++ for_actor a (arrivals es)
    unfolding run
    run-fifo a [] s v stay spare = unfold for_actor arrivals in sym (append-nil (pending s a))
    run-fifo a (x ∷ es) s v stay spare =
        let now = step x s in
        let ih = run-fifo a es now.0 (step-Valid x s v) stay (Spares-tail a x es spare) in
        simp (for_actor-append, append_assoc, ih)
          (sym (
              append_assoc (for_actor a (list_of now.1)) (pending now.0 a)
                (for_actor a (arrivals es)))
            ∙ step-fifo a x es s v stay spare)
