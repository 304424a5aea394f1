-- ===== src/Scheduler/Invariant.antt =====
-- The scheduler's invariant and its preservation.
use actinium_actor.Prelude.{
  ℕ, ◌≡◌, refl, true, false, none, some, List, [], ◌∷◌, ◌++◌, contains, Distinct, if◌then◌else◌,
  arith, contains-append, contains-without, without-Distinct, append-Distinct, ◌≢◌, ◌==◌,
  Bool-cases, ==_iff, inl, inr,
}
use actinium_actor.HashMap.{get}
use actinium_actor.HashMap.Laws.{get-insert, get-remove}
use actinium_actor.Envelope.{Envelope}
use actinium_actor.Scheduler.Mail.{
  has_pending-pending, pending-enqueue, pending-remove_actor, pending-requeue_if_ready,
  ready_queue-requeue_if_ready,
}
use actinium_actor.Scheduler.{
  pending, Scheduler, is_empty, new, has_pending, enqueue, next_ready, requeue_if_ready,
  remove_actor, mailbox_or_default,
}

-- Every message of a mailbox is addressed to its actor.
abbrev pub AddressedTo {ℓ} : {D : Type ℓ} → ℕ → List (Envelope D) → Type 0
AddressedTo a [] = Unit {0}
AddressedTo a (e ∷ q) = (e.actor_id ≡ a) × AddressedTo a q

-- Between turns: no actor stands twice in the ready queue, an actor stands there exactly when it
-- has a message, no empty mailbox is kept, and messages are in the mailboxes of their actors.
pub record Valid {ℓ} {D : Type ℓ} (s : Scheduler D) : Type ℓ where
  pub distinct : Distinct s.ready_queue
  pub ready : (a : ℕ) → contains s.ready_queue a ≡ has_pending s a
  pub tidy : (a : ℕ) → get s.mailboxes a ≢ some []
  pub addressed : (a : ℕ) → AddressedTo a (pending s a)

-- During the turn of `busy`: it stands outside the queue, whatever its mailbox holds.
pub record InTurn {ℓ} {D : Type ℓ} (busy : ℕ) (s : Scheduler D) : Type ℓ where
  pub distinct : Distinct s.ready_queue
  pub absent : contains s.ready_queue busy ≡ false
  pub ready : (a : ℕ) → (a == busy) ≡ false → contains s.ready_queue a ≡ has_pending s a
  pub tidy : (a : ℕ) → (a == busy) ≡ false → get s.mailboxes a ≢ some []
  pub addressed : (a : ℕ) → AddressedTo a (pending s a)

module _ {ℓ} {D : Type ℓ} where
  pub new-Valid : Valid {D = D} new
  unfolding new has_pending get pending
  new-Valid = record { distinct = tt; ready = λ a. refl; tidy = λ a e. cc; addressed = λ a. tt }

  append-AddressedTo :
      (a : ℕ) (q : List (Envelope D)) (e : Envelope D)
      → AddressedTo a q
      → e.actor_id ≡ a
      → AddressedTo a (q ++ e ∷ [])
  append-AddressedTo a [] e h p = (p, tt)
  append-AddressedTo a (x ∷ q) e h p = (h.0, append-AddressedTo a q e h.1 p)

  enqueue-addressed :
      (e : Envelope D) (s : Scheduler D) (a : ℕ)
      → AddressedTo a (pending s a)
      → AddressedTo a (pending (enqueue e s) a)
  enqueue-addressed e s a h = elim (Bool-cases (e.actor_id == a)) [
    | inl same ↦
        rw (pending-enqueue e s a, same)
          (append-AddressedTo a (pending s a) e h ((==_iff _ _).0 same))
    | inr other ↦ rw (pending-enqueue e s a, other) h
  ]

  pub append_one-nonempty :
      (q : List (Envelope D)) (e : Envelope D) → is_empty (q ++ e ∷ []) ≡ false
  append_one-nonempty [] e = refl
  append_one-nonempty (x ∷ q) e = refl

  pub contains-enqueue :
      (e : Envelope D) (s : Scheduler D) (a : ℕ)
      → contains (enqueue e s).ready_queue a
        ≡ (if e.actor_id == a then true else contains s.ready_queue a)
  unfolding enqueue
  contains-enqueue e s a = ground (arith, contains-append s.ready_queue (e.actor_id ∷ []) a)

  pub has_pending-enqueue :
      (e : Envelope D) (s : Scheduler D) (a : ℕ)
      → has_pending (enqueue e s) a ≡ (if e.actor_id == a then true else has_pending s a)
  has_pending-enqueue e s a = ground (
    arith,
    has_pending-pending s a,
    has_pending-pending (enqueue e s) a,
    pending-enqueue e s a,
    append_one-nonempty (pending s a) e,
  )

  enqueue-tidy :
      (e : Envelope D) (s : Scheduler D) (a : ℕ)
      → get s.mailboxes a ≢ some []
      → get (enqueue e s).mailboxes a ≢ some []
  unfolding enqueue
  enqueue-tidy e s a t h = ground (
    arith,
    get-insert e.actor_id (mailbox_or_default s.mailboxes e.actor_id ++ e ∷ []) s.mailboxes a,
    append_one-nonempty (mailbox_or_default s.mailboxes e.actor_id) e,
  )

  pub enqueue-Valid : (e : Envelope D) (s : Scheduler D) → Valid s → Valid (enqueue e s)
  enqueue-Valid e s v = record {
    distinct =
        unfold enqueue in ground (arith, append-Distinct s.ready_queue e.actor_id v.distinct);
    ready = λ a. ground (arith, v.ready a, contains-enqueue e s a, has_pending-enqueue e s a);
    tidy = λ a. enqueue-tidy e s a (v.tidy a);
    addressed = λ a. enqueue-addressed e s a (v.addressed a);
  }

  -- The head of the ready queue has a message, so `next_ready` skips nobody.
  pub next_ready-nil : (s : Scheduler D) → s.ready_queue ≡ [] → next_ready s ≡ (s, none)
  unfolding next_ready
  next_ready-nil s e = ground arith

  pub next_ready-cons :
      (s : Scheduler D) (id : ℕ) (queue : List ℕ)
      → Valid s
      → s.ready_queue ≡ id ∷ queue
      → next_ready s ≡ (record s { ready_queue = queue }, some id)
  unfolding next_ready
  next_ready-cons s id queue v e = ground (arith, v.ready id)

  pub remove_actor-tidy :
      (b : ℕ) (s : Scheduler D) (a : ℕ)
      → ((b == a) ≡ false → get s.mailboxes a ≢ some [])
      → get (remove_actor b s).mailboxes a ≢ some []
  unfolding remove_actor
  remove_actor-tidy b s a t h = ground (arith, get-remove b s.mailboxes a)

  pub remove_actor-addressed :
      (b : ℕ) (s : Scheduler D) (a : ℕ)
      → AddressedTo a (pending s a)
      → AddressedTo a (pending (remove_actor b s) a)
  remove_actor-addressed b s a h = elim (Bool-cases (b == a)) [
    | inl same ↦ rw (pending-remove_actor b s a, same) tt
    | inr other ↦ rw (pending-remove_actor b s a, other) h
  ]

  -- Removing an actor takes it out of the queue and of the mailboxes.
  pub remove_actor-Valid : (b : ℕ) (s : Scheduler D) → Valid s → Valid (remove_actor b s)
  remove_actor-Valid b s v = record {
    distinct = unfold remove_actor in without-Distinct b s.ready_queue v.distinct;
    ready = λ a.
        unfold remove_actor has_pending in
        ground (arith, v.ready a, contains-without b s.ready_queue a, get-remove b s.mailboxes a);
    tidy = λ a. remove_actor-tidy b s a (λ _. v.tidy a);
    addressed = λ a. remove_actor-addressed b s a (v.addressed a);
  }

  requeue_if_ready-tidy :
      (b : ℕ) (s : Scheduler D) (a : ℕ)
      → ((a == b) ≡ false → get s.mailboxes a ≢ some [])
      → get (requeue_if_ready b s).mailboxes a ≢ some []
  unfolding requeue_if_ready
  requeue_if_ready-tidy b s a t h = ground (arith, get-remove b s.mailboxes a)

  -- `requeue_if_ready` ends a turn.
  pub requeue_if_ready-Valid : (b : ℕ) (s : Scheduler D) → InTurn b s → Valid (requeue_if_ready b s)
  requeue_if_ready-Valid b s v = record {
    distinct =
        unfold requeue_if_ready in ground (arith, append-Distinct s.ready_queue b v.distinct);
    ready = λ a. ground (
      arith,
      v.ready a,
      ready_queue-requeue_if_ready b s,
      contains-append s.ready_queue (b ∷ []) a,
      has_pending-pending s a,
      has_pending-pending (requeue_if_ready b s) a,
      pending-requeue_if_ready b s a,
    );
    tidy = λ a. requeue_if_ready-tidy b s a (v.tidy a);
    addressed = λ a. rw (pending-requeue_if_ready b s a) (v.addressed a);
  }
