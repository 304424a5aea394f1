-- ===== src/Scheduler/Mail.antt =====
-- What each operation of the scheduler does to the messages that wait for an actor.
use actinium_actor.Prelude.{
  ℕ, ◌≡◌, refl, not, none, some, List, [], ◌∷◌, ◌++◌, if◌then◌else◌, arith, ◌==◌,
}
use actinium_actor.HashMap.{get}
use actinium_actor.HashMap.Laws.{get-insert, get-remove}
use actinium_actor.Envelope.{Envelope}
use actinium_actor.Scheduler.{
  Scheduler, is_empty, new, has_pending, enqueue, dequeue, requeue_if_ready, remove_actor,
  mailbox_or_default, pending,
}

module _ {ℓ} {D : Type ℓ} where
  pub has_pending-pending :
      (s : Scheduler D) (a : ℕ) → has_pending s a ≡ not (is_empty (pending s a))
  unfolding has_pending pending
  has_pending-pending s a = ground arith

  pub pending-new : (a : ℕ) → pending {D = D} new a ≡ []
  unfolding pending new get
  pending-new a = refl

  pub pending-enqueue :
      (e : Envelope D) (s : Scheduler D) (a : ℕ)
      → pending (enqueue e s) a ≡ (if e.actor_id == a then pending s a ++ e ∷ [] else pending s a)
  unfolding pending enqueue
  pending-enqueue e s a = ground (
    arith,
    get-insert e.actor_id (mailbox_or_default s.mailboxes e.actor_id ++ e ∷ []) s.mailboxes a,
  )

  -- The mailbox loses its first message, and stays in the map.
  pub dequeue-pending :
      (b : ℕ) (s : Scheduler D)
      → (dequeue b s).1 ≡ (elim (pending s b) [ [] ↦ none | e ∷ q ↦ some e ])
  unfolding pending dequeue
  dequeue-pending b s = ground arith

  abbrev pub tail_of : List (Envelope D) → List (Envelope D)
  tail_of [] = []
  tail_of (e ∷ q) = q

  pub pending-dequeue :
      (b : ℕ) (s : Scheduler D) (a : ℕ)
      → pending (dequeue b s).0 a ≡ (if b == a then tail_of (pending s a) else pending s a)
  unfolding pending dequeue mailbox_or_default
  pending-dequeue b s a =
      ground (arith, get-insert b (tail_of (mailbox_or_default s.mailboxes b)) s.mailboxes a)

  pub ready_queue-dequeue : (b : ℕ) (s : Scheduler D) → (dequeue b s).0.ready_queue ≡ s.ready_queue
  unfolding dequeue
  ready_queue-dequeue b s = ground arith

  pub pending-requeue_if_ready :
      (b : ℕ) (s : Scheduler D) (a : ℕ) → pending (requeue_if_ready b s) a ≡ pending s a
  unfolding pending requeue_if_ready
  pending-requeue_if_ready b s a = ground (arith, get-remove b s.mailboxes a)

  pub ready_queue-requeue_if_ready :
      (b : ℕ) (s : Scheduler D)
      → (requeue_if_ready b s).ready_queue
        ≡ (if has_pending s b then s.ready_queue ++ b ∷ [] else s.ready_queue)
  unfolding requeue_if_ready
  ready_queue-requeue_if_ready b s = ground arith

  pub pending-remove_actor :
      (b : ℕ) (s : Scheduler D) (a : ℕ)
      → pending (remove_actor b s) a ≡ (if b == a then [] else pending s a)
  unfolding pending remove_actor
  pending-remove_actor b s a = ground (arith, get-remove b s.mailboxes a)
