-- ===== src/Scheduler.antt =====
-- src/scheduler.rs: the per-worker round-robin scheduler.
use actinium_actor.Prelude.{
  ℕ, zero, suc, Bool, true, false, not, Option, none, some, List, [], ◌∷◌, ◌++◌, length, contains,
  without, if◌then◌else◌,
}
use actinium_actor.HashMap.{HashMap, get, insert, remove}
use actinium_actor.Envelope.{Envelope}
pub mod Mail
pub mod Turn
pub mod Invariant
pub mod History
pub mod Fairness

pub record Scheduler {ℓ} (D : Type ℓ) : Type ℓ where
  pub mailboxes : HashMap (List (Envelope D))
  pub ready_queue : List ℕ

-- `is_empty` of a deque.
abbrev pub is_empty {ℓ} : {A : Type ℓ} → List A → Bool
is_empty [] = true
is_empty (x ∷ xs) = false

module _ {ℓ} {D : Type ℓ} where
  unfoldable pub new : Scheduler D
  new = record { mailboxes = []; ready_queue = [] }

  -- `.get(&actor_id).map(|q| !q.is_empty()).unwrap_or(false)`
  unfoldable pub has_pending : Scheduler D → ℕ → Bool
  has_pending s actor_id = elim (get s.mailboxes actor_id) [
    | none ↦ false
    | some q ↦ not (is_empty q)
  ]

  -- `.entry(actor_id).or_default()`
  unfoldable pub mailbox_or_default : HashMap (List (Envelope D)) → ℕ → List (Envelope D)
  mailbox_or_default m actor_id = elim (get m actor_id) [ none ↦ [] | some q ↦ q ]

  unfoldable pub enqueue : Envelope D → Scheduler D → Scheduler D
  unfolding mailbox_or_default
  enqueue envelope s =
      let actor_id = envelope.actor_id in
      let boxes =
        insert actor_id (mailbox_or_default s.mailboxes actor_id ++ envelope ∷ []) s.mailboxes in
      record {
        mailboxes = boxes;
        ready_queue =
            if contains s.ready_queue actor_id
            then s.ready_queue
            else s.ready_queue ++ actor_id ∷ [];
      }

  -- The loop of `next_ready`: at most `len` identifiers are taken off the queue.
  unfoldable pub next_ready_loop : ℕ → Scheduler D → List ℕ → Scheduler D × Option ℕ
  next_ready_loop zero s queue = (record s { ready_queue = queue }, none)
  next_ready_loop (suc len) s [] = (record s { ready_queue = [] }, none)
  next_ready_loop (suc len) s (id ∷ queue) =
      let rest = next_ready_loop len s queue in
      if has_pending s id then (record s { ready_queue = queue }, some id) else rest

  unfoldable pub next_ready : Scheduler D → Scheduler D × Option ℕ
  unfolding next_ready_loop
  next_ready s = next_ready_loop (length s.ready_queue) s s.ready_queue

  -- `pop_front` of the actor's mailbox, which stays in the map when it becomes empty.
  pop_mailbox : ℕ → Scheduler D → List (Envelope D) → Scheduler D × Option (Envelope D)
  pop_mailbox actor_id s [] = (s, none)
  pop_mailbox actor_id s (envelope ∷ q) =
      (record s { mailboxes = insert actor_id q s.mailboxes }, some envelope)

  unfoldable pub dequeue : ℕ → Scheduler D → Scheduler D × Option (Envelope D)
  unfolding pop_mailbox
  dequeue actor_id s = elim (get s.mailboxes actor_id) [
    | none ↦ (s, none)
    | some q ↦ pop_mailbox actor_id s q
  ]

  unfoldable pub cleanup_empty : ℕ → Scheduler D → Scheduler D
  cleanup_empty actor_id s = elim (get s.mailboxes actor_id) [
    | none ↦ s
    | some q ↦ if is_empty q then record s { mailboxes = remove actor_id s.mailboxes } else s
  ]

  unfoldable pub requeue_if_ready : ℕ → Scheduler D → Scheduler D
  unfolding has_pending cleanup_empty
  requeue_if_ready actor_id s =
      if has_pending s actor_id
      then record s { ready_queue = s.ready_queue ++ actor_id ∷ [] }
      else cleanup_empty actor_id s

  unfoldable pub remove_actor : ℕ → Scheduler D → Scheduler D
  remove_actor actor_id s = record {
    mailboxes = remove actor_id s.mailboxes;
    ready_queue = without actor_id s.ready_queue;
  }

  -- The messages that wait for an actor, oldest first.
  unfoldable pub pending : Scheduler D → ℕ → List (Envelope D)
  unfolding mailbox_or_default
  pending s actor_id = mailbox_or_default s.mailboxes actor_id

  -- The scheduler's part of a round of `Worker::run`: `next_ready`, `dequeue`, the dispatch, in
  -- which the worker removes the actor if the message `stops` it, and `requeue_if_ready`.
  unfoldable pub after_dequeue :
      (Envelope D → Bool)
      → ℕ
      → Scheduler D × Option (Envelope D)
      → Scheduler D × Option (Envelope D)
  after_dequeue stops actor_id (s, none) = (s, none)
  after_dequeue stops actor_id (s, some envelope) = (
    requeue_if_ready actor_id (if stops envelope then remove_actor envelope.actor_id s else s),
    some envelope,
  )

  unfoldable pub after_ready :
      (Envelope D → Bool) → Scheduler D × Option ℕ → Scheduler D × Option (Envelope D)
  unfolding after_dequeue
  after_ready stops (s, none) = (s, none)
  after_ready stops (s, some actor_id) = after_dequeue stops actor_id (dequeue actor_id s)

  unfoldable pub turn : (Envelope D → Bool) → Scheduler D → Scheduler D × Option (Envelope D)
  unfolding after_ready
  turn stops s = after_ready stops (next_ready s)
