-- ===== src/Worker/Dropped.antt =====
-- src/runtime.rs: what the return of `Worker::run` drops: the receiver and the mailboxes.
use actinium_actor.Prelude.{
  ℕ, ◌≡◌, subst, false, Option, none, some, List, [], ◌∷◌, ◌==◌, ◌⊎◌, inl, inr, arith, Option-cases,
  Bool-cases, if◌then◌else◌,
}
use actinium_actor.HashMap.{HashMap, get, insert}
use actinium_actor.HashMap.Laws.{get-insert}
use actinium_actor.Actor.{Types, failed, actor_not_running}
use actinium_actor.Actor.Store.{Mail, Channel, Env, drop_envelope, drop_reply, receive_reply}
use actinium_actor.Scheduler.{pending, mailbox_or_default}
use actinium_actor.Worker.{Worker, drop_all}
use actinium_actor.Worker.Receive.{queued}

module _ {t : Types} where
  unfoldable pub close_on : ℕ → Option (Channel t) → Env t → Env t
  unfolding drop_all
  close_on k none env = env
  close_on k (some ch) env =
      drop_all ch.queue (record env {
        channels = insert k (record ch { queue = []; receiver = false }) env.channels;
      })

  -- A receiver that is dropped drops what it has not received, and later sends fail.
  unfoldable pub close : ℕ → Env t → Env t
  unfolding close_on
  close k env = close_on k (get env.channels k) env

  unfoldable pub drop_mailboxes : HashMap (List (Mail t)) → Env t → Env t
  unfolding drop_all
  drop_mailboxes [] env = env
  drop_mailboxes ((a, q) ∷ boxes) env = drop_mailboxes boxes (drop_all q env)

  -- The fields in the order of their declaration.
  unfoldable pub drop_worker : Worker t → Env t → Env t
  unfolding close drop_mailboxes
  drop_worker w env = drop_mailboxes w.scheduler.mailboxes (close w.msg_rx env)

  -- A sender waits on reply `k` for one of the messages.
  abbrev pub Waits : ℕ → List (Mail t) → Type 0
  Waits k [] = ⊥
  Waits k (e ∷ q) = (e.dispatch.reply ≡ some k) ⊎ Waits k q

  -- Whoever waits on reply `k` is told that the actor does not run.
  abbrev pub Refused : ℕ → Env t → Type 0
  Refused k env = receive_reply k env ≡ some (failed actor_not_running)

  drop_envelope-keeps :
      (k : ℕ) (e : Mail t) (env : Env t) → Refused k env → Refused k (drop_envelope e env)
  unfolding receive_reply drop_envelope drop_reply
  drop_envelope-keeps k e env h = elim (Option-cases e.dispatch.reply) [
    | inl o ↦ rw o h
    | inr (j, o) ↦ rw o (ground (arith, get-insert j (failed actor_not_running) env.replies k))
  ]

  drop_envelope-refuses :
      (k : ℕ) (e : Mail t) (env : Env t)
      → e.dispatch.reply ≡ some k
      → Refused k (drop_envelope e env)
  unfolding receive_reply drop_envelope drop_reply
  drop_envelope-refuses k e env o =
      rw o (ground (arith, get-insert k (failed actor_not_running) env.replies k))

  drop_all-keeps :
      (k : ℕ) (q : List (Mail t)) (env : Env t) → Refused k env → Refused k (drop_all q env)
  unfolding drop_all
  drop_all-keeps k [] env h = h
  drop_all-keeps k (e ∷ q) env h = drop_all-keeps k q _ (drop_envelope-keeps k e env h)

  drop_all-refuses :
      (k : ℕ) (q : List (Mail t)) (env : Env t) → Waits k q → Refused k (drop_all q env)
  unfolding drop_all
  drop_all-refuses k [] env h = absurd h
  drop_all-refuses k (e ∷ q) env (inl o) =
      drop_all-keeps k q (drop_envelope e env) (drop_envelope-refuses k e env o)
  drop_all-refuses k (e ∷ q) env (inr h) = drop_all-refuses k q _ h

  drop_mailboxes-keeps :
      (k : ℕ) (boxes : HashMap (List (Mail t))) (env : Env t)
      → Refused k env
      → Refused k (drop_mailboxes boxes env)
  unfolding drop_mailboxes
  drop_mailboxes-keeps k [] env h = h
  drop_mailboxes-keeps k ((a, q) ∷ boxes) env h =
      drop_mailboxes-keeps k boxes _ (drop_all-keeps k q env h)

  mailbox_or_default-cons :
      (a b : ℕ) (q : List (Mail t)) (boxes : HashMap (List (Mail t)))
      → mailbox_or_default ((b, q) ∷ boxes) a ≡ (if b == a then q else mailbox_or_default boxes a)
  unfolding mailbox_or_default get
  mailbox_or_default-cons a b q boxes = ground arith

  drop_mailboxes-refuses :
      (k a : ℕ) (boxes : HashMap (List (Mail t))) (env : Env t)
      → Waits k (mailbox_or_default boxes a)
      → Refused k (drop_mailboxes boxes env)
  unfolding drop_mailboxes mailbox_or_default get
  drop_mailboxes-refuses k a [] env h = absurd h
  drop_mailboxes-refuses k a ((b, q) ∷ boxes) env h =
      let split = mailbox_or_default-cons a b q boxes in
      elim (Bool-cases (b == a)) [
        | inl same ↦
            drop_mailboxes-keeps k boxes _
              (drop_all-refuses k q env (subst (Waits k) (ground (arith, split, same)) h))
        | inr other ↦
            drop_mailboxes-refuses k a boxes _ (subst (Waits k) (ground (arith, split, other)) h)
      ]

  close_on-refuses :
      (k m : ℕ) (o : Option (Channel t)) (env : Env t)
      → Waits k (queued o)
      → Refused k (close_on m o env)
  unfolding close_on
  close_on-refuses k m none env h = absurd h
  close_on-refuses k m (some ch) env h = drop_all-refuses k ch.queue _ h

  -- Every message that waits in the channel or in a mailbox of a worker whose thread ends: its
  -- sender's wait ends with the error that the actor does not run.
  pub drop_worker-Refused :
      (k : ℕ) (w : Worker t) (env : Env t)
      → Waits k (queued (get env.channels w.msg_rx)) ⊎ ((a : ℕ) × Waits k (pending w.scheduler a))
      → Refused k (drop_worker w env)
  unfolding drop_worker close pending
  drop_worker-Refused k w env (inl h) =
      drop_mailboxes-keeps k w.scheduler.mailboxes _
        (close_on-refuses k w.msg_rx (get env.channels w.msg_rx) env h)
  drop_worker-Refused k w env (inr (a, h)) = drop_mailboxes-refuses k a w.scheduler.mailboxes _ h
