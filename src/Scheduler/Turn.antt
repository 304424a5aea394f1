-- ===== src/Scheduler/Turn.antt =====
-- A turn of the worker's loop as the scheduler sees it: `next_ready`, `dequeue`, the dispatch,
-- which removes the actor if it stops, and `requeue_if_ready`.
use actinium_actor.Prelude.{
  ℕ, ◌≡◌, refl, Bool, false, none, some, List, [], ◌∷◌, ◌++◌, if◌then◌else◌, arith, ◌==◌,
  Bool-cases, inl, inr, ◌⊎◌, contains-without, without-absent, without-Distinct,
}
use actinium_actor.HashMap.{get}
use actinium_actor.HashMap.Laws.{get-insert, get-remove}
use actinium_actor.Envelope.{Envelope}
use actinium_actor.Scheduler.{
  Scheduler, is_empty, has_pending, dequeue, requeue_if_ready, remove_actor, pending,
  mailbox_or_default, turn,
}
use actinium_actor.Scheduler.Mail.{
  has_pending-pending, dequeue-pending, pending-dequeue, ready_queue-dequeue, tail_of,
  pending-requeue_if_ready, ready_queue-requeue_if_ready, pending-remove_actor,
}
use actinium_actor.Scheduler.Invariant.{
  AddressedTo, Valid, InTurn, next_ready-nil, next_ready-cons, requeue_if_ready-Valid,
  remove_actor-tidy, remove_actor-addressed,
}

module _ {ℓ} {D : Type ℓ} where
  -- The scheduler after `next_ready` has taken the head of the queue.
  abbrev pub rest : Scheduler D → List ℕ → Scheduler D
  rest s queue = record s { ready_queue = queue }

  pub pending-ready_queue :
      (s : Scheduler D) (queue : List ℕ) (a : ℕ)
      → pending (record s { ready_queue = queue }) a ≡ pending s a
  unfolding pending
  pending-ready_queue s queue a = refl

  get-dequeue_ne :
      (b : ℕ) (s : Scheduler D) (a : ℕ)
      → (b == a) ≡ false
      → get (dequeue b s).0.mailboxes a ≡ get s.mailboxes a
  unfolding dequeue mailbox_or_default
  get-dequeue_ne b s a h =
      ground (arith, get-insert b (tail_of (mailbox_or_default s.mailboxes b)) s.mailboxes a)

  first_message :
      (b : ℕ) (q : List (Envelope D))
      → is_empty q ≡ false
      → AddressedTo b q
      → (e : Envelope D) × (r : List (Envelope D)) × (q ≡ e ∷ r) × (e.actor_id ≡ b)
  first_message b [] h t = cc
  first_message b (e ∷ r) h t = (e, r, refl, t.0)

  tail-AddressedTo : (a : ℕ) (q : List (Envelope D)) → AddressedTo a q → AddressedTo a (tail_of q)
  tail-AddressedTo a [] t = tt
  tail-AddressedTo a (e ∷ q) t = t.1

  dequeue-addressed :
      (b : ℕ) (s : Scheduler D) (a : ℕ)
      → AddressedTo a (pending s a)
      → AddressedTo a (pending (dequeue b s).0 a)
  dequeue-addressed b s a t = elim (Bool-cases (b == a)) [
    | inl same ↦ rw (pending-dequeue b s a, same) (tail-AddressedTo a (pending s a) t)
    | inr other ↦ rw (pending-dequeue b s a, other) t
  ]

  -- The mailbox of the actor at the head of a valid queue has a first message.
  pub head_message :
      (s : Scheduler D) (b : ℕ) (queue : List ℕ)
      → Valid s
      → s.ready_queue ≡ b ∷ queue
      → (e : Envelope D) × (q : List (Envelope D)) × (pending s b ≡ e ∷ q) × (e.actor_id ≡ b)
  head_message s b queue v r =
      first_message b (pending s b) (ground (arith, v.ready b, has_pending-pending s b))
        (v.addressed b)

  -- After `next_ready` and `dequeue` the actor is in its turn.
  pub dequeue-InTurn :
      (s : Scheduler D) (b : ℕ) (queue : List ℕ)
      → Valid s
      → s.ready_queue ≡ b ∷ queue
      → InTurn b (dequeue b (rest s queue)).0
  dequeue-InTurn s b queue v r = record {
    distinct = rw (ready_queue-dequeue b (rest s queue)) (ground (arith, v.distinct));
    absent = rw (ready_queue-dequeue b (rest s queue)) (ground (arith, v.distinct));
    ready = λ a h. ground (
      arith,
      v.ready a,
      ready_queue-dequeue b (rest s queue),
      has_pending-pending s a,
      has_pending-pending (dequeue b (rest s queue)).0 a,
      pending-dequeue b (rest s queue) a,
      pending-ready_queue s queue a,
    );
    tidy = λ a h. rw (get-dequeue_ne b (rest s queue) a (ground arith)) (v.tidy a);
    addressed = λ a.
        dequeue-addressed b (rest s queue) a (rw (pending-ready_queue s queue a) (v.addressed a));
  }

  -- A dispatch that stops the actor keeps it in its turn, with nothing left for it.
  pub remove_actor-InTurn : (b : ℕ) (s : Scheduler D) → InTurn b s → InTurn b (remove_actor b s)
  remove_actor-InTurn b s v = record {
    distinct = unfold remove_actor in without-Distinct b s.ready_queue v.distinct;
    absent = unfold remove_actor in ground (arith, contains-without b s.ready_queue b);
    ready = λ a h.
        unfold remove_actor has_pending in
        ground (arith, v.ready a, contains-without b s.ready_queue a, get-remove b s.mailboxes a);
    tidy = λ a h. remove_actor-tidy b s a (λ k. v.tidy a h);
    addressed = λ a. remove_actor-addressed b s a (v.addressed a);
  }

  module _ (stops : Envelope D → Bool) where
    -- An empty ready queue: nothing is served.
    pub turn-nil : (s : Scheduler D) → s.ready_queue ≡ [] → turn stops s ≡ (s, none)
    unfolding turn
    turn-nil s r = rw (next_ready-nil s r)

    -- The state in which a turn of `b` that serves `e` leaves the scheduler.
    abbrev pub served : Scheduler D → ℕ → List ℕ → Envelope D → Scheduler D
    served s b queue e =
        let d = (dequeue b (rest s queue)).0 in
        requeue_if_ready b (if stops e then remove_actor b d else d)

    module _ (s : Scheduler D) (b : ℕ) (queue : List ℕ) (v : Valid s) where
      pub served-Valid : (e : Envelope D) → s.ready_queue ≡ b ∷ queue → Valid (served s b queue e)
      served-Valid e r = requeue_if_ready-Valid b _ (elim (Bool-cases (stops e)) [
        | inl stop ↦ rw stop (remove_actor-InTurn b _ (dequeue-InTurn s b queue v r))
        | inr go ↦ rw go (dequeue-InTurn s b queue v r)
      ])

      -- A turn serves the head of the ready queue its oldest message.
      pub turn-cons :
          (e : Envelope D) (q : List (Envelope D))
          → s.ready_queue ≡ b ∷ queue
          → pending s b ≡ e ∷ q
          → e.actor_id ≡ b
          → turn stops s ≡ (served s b queue e, some e)
      unfolding turn
      turn-cons e q r p t = ground (
        arith,
        next_ready-cons s b queue v r,
        dequeue-pending b (rest s queue),
        pending-ready_queue s queue b,
      )

      pub pending-served :
          (e : Envelope D) (a : ℕ)
          → pending (served s b queue e) a
            ≡ (if b == a then (if stops e then [] else tail_of (pending s a)) else pending s a)
      pending-served e a = elim (Bool-cases (stops e)) [
        | inl stop ↦ rw stop (
            ground (
              arith,
              pending-requeue_if_ready b (remove_actor b (dequeue b (rest s queue)).0) a,
              pending-remove_actor b (dequeue b (rest s queue)).0 a,
              pending-dequeue b (rest s queue) a,
              pending-ready_queue s queue a,
            ))
        | inr go ↦ rw go (
            ground (
              arith,
              pending-requeue_if_ready b (dequeue b (rest s queue)).0 a,
              pending-dequeue b (rest s queue) a,
              pending-ready_queue s queue a,
            ))
      ]

      ready_queue-served_stopped :
          s.ready_queue ≡ b ∷ queue
          → (requeue_if_ready b (remove_actor b (dequeue b (rest s queue)).0)).ready_queue ≡ queue
      unfolding remove_actor
      ready_queue-served_stopped r = ground (
        arith,
        v.distinct,
        ready_queue-requeue_if_ready b (remove_actor b (dequeue b (rest s queue)).0),
        has_pending-pending (remove_actor b (dequeue b (rest s queue)).0) b,
        pending-remove_actor b (dequeue b (rest s queue)).0 b,
        ready_queue-dequeue b (rest s queue),
        without-absent b queue,
      )

      pub ready_queue-served :
          (e : Envelope D)
          → s.ready_queue ≡ b ∷ queue
          → (served s b queue e).ready_queue ≡ (
              if stops e
              then queue
              else (if is_empty (tail_of (pending s b)) then queue else queue ++ b ∷ []))
      ready_queue-served e r = elim (Bool-cases (stops e)) [
        | inl stop ↦ rw stop (ready_queue-served_stopped r)
        | inr go ↦ rw go (
            ground (
              arith,
              ready_queue-requeue_if_ready b (dequeue b (rest s queue)).0,
              has_pending-pending (dequeue b (rest s queue)).0 b,
              pending-dequeue b (rest s queue) b,
              pending-ready_queue s queue b,
              ready_queue-dequeue b (rest s queue),
            ))
      ]

    -- What a turn of a valid scheduler does: nothing, if no actor is ready, or it serves the head
    -- of the ready queue its oldest message.
    pub record Serves (s : Scheduler D) : Type ℓ where
      pub b : ℕ
      pub queue : List ℕ
      pub e : Envelope D
      pub first : s.ready_queue ≡ b ∷ queue
      pub oldest : pending s b ≡ e ∷ tail_of (pending s b)
      pub address : e.actor_id ≡ b
      pub turned : turn stops s ≡ (served s b queue e, some e)

    serves :
        (s : Scheduler D) (b : ℕ) (queue : List ℕ) → Valid s → s.ready_queue ≡ b ∷ queue → Serves s
    serves s b queue v r =
        let (e, q, p, t) = head_message s b queue v r in
        record {
          b = b;
          queue = queue;
          e = e;
          first = r;
          oldest = rw p;
          address = t;
          turned = turn-cons s b queue v e q r p t;
        }

    queue_cases : (q : List ℕ) → (q ≡ []) ⊎ ((b : ℕ) × (queue : List ℕ) × (q ≡ b ∷ queue))
    queue_cases [] = inl refl
    queue_cases (b ∷ queue) = inr (b, queue, refl)

    pub turn-cases :
        (s : Scheduler D) → Valid s → ((s.ready_queue ≡ []) × (turn stops s ≡ (s, none))) ⊎ Serves s
    turn-cases s v = elim (queue_cases s.ready_queue) [
      | inl r ↦ inl (r, turn-nil s r)
      | inr (b, queue, r) ↦ inr (serves s b queue v r)
    ]

    -- A turn keeps the invariant.
    pub turn-Valid : (s : Scheduler D) → Valid s → Valid (turn stops s).0
    turn-Valid s v = elim (turn-cases s v) [
      | inl (r, t) ↦ rw t v
      | inr t ↦ rw (t.turned) (served-Valid s t.b t.queue v t.e t.first)
    ]
