-- ===== src/Worker/Order.antt =====
-- An iteration of a worker serves each actor the oldest of its messages and keeps the others in order.
use actinium_actor.Prelude.{
  contains, ℕ, ◌≡◌, refl, sym, ap, ◌∙◌, Bool, false, Option, none, some, List, [], ◌∷◌, ◌++◌, ◌==◌,
  ==_iff, if◌then◌else◌, arith, append_assoc, Bool-cases, inl, inr,
}
use actinium_actor.HashMap.{get}
use actinium_actor.Outcome.{Outcome, returned, panicked}
use actinium_actor.Scheduler.{
  Scheduler, next_ready, dequeue, pending, turn, after_ready, after_dequeue,
}
use actinium_actor.Scheduler.Mail.{pending-enqueue}
use actinium_actor.Scheduler.Invariant.{Valid}
use actinium_actor.Scheduler.History.{for_actor, list_of, turn-fifo}
use actinium_actor.Actor.{Types, Code}
use actinium_actor.Actor.Store.{Dispatch, Mail, Env}
use actinium_actor.System.{Received, message, empty, disconnected, try_recv}
use actinium_actor.Worker.{
  Worker, Next, goes_on, returns, drain, leave, stop_all_actors, post_all, dispatch, and_then,
  finish_turn, on_dequeued, on_waited, on_ready, serve,
}
use actinium_actor.Worker.Receive.{Calm, Left, queued}
use actinium_actor.Worker.Turn.{dispatch-Left}
use actinium_actor.Worker.Log.{Log, flag, log_dequeued, log_ready, log_serve}
use actinium_actor.Worker.Backlog.{backlog, drain-pending, drain-Valid}

-- The messages of a log.
abbrev pub mails : {t : Types} → Log t → List (Mail t)
mails [] = []
mails ((e, b) ∷ l) = e ∷ mails l

-- No message of the log stops the actor.
abbrev pub Spared : {t : Types} → ℕ → Log t → Type 0
Spared a [] = Unit {0}
Spared a ((e, b) ∷ l) = (e.actor_id ≡ a → b ≡ false) × Spared a l

-- Where the worker goes on: the messages of `served` for the actor and then its backlog are what
-- waited before and then what has come since.
abbrev pub Moves :
    {t : Types} → ℕ → List (Mail t) → List (Mail t) → Env t × Outcome (Next t) → Type 0
Moves a before served (env, panicked m) = Unit {0}
Moves a before served (env, returned (returns w)) = Unit {0}
Moves a before served (env, returned (goes_on w)) =
    (more : List (Mail _)) × (for_actor a served ++ backlog a w env ≡ before ++ more)

module _ (c : Code) (calm : Calm c) (a : ℕ) where
  open c use {types, Any}

  finish_turn-Moves :
      (st : Mail types → Bool) (b : ℕ) (e : Mail types) (w : Worker types)
      (before : List (Mail types)) (r : Env types × Outcome (Worker types))
      → Left e.actor_id w (st e) r.1
      → for_actor a (e ∷ []) ++ pending (after_dequeue st b (w.scheduler, some e)).0 a ≡ before
      → Moves a before (e ∷ []) (and_then c r (finish_turn c b))
  unfolding finish_turn after_dequeue
  finish_turn-Moves st b e w before (env, panicked m) left h = tt
  finish_turn-Moves st b e w before (env, returned w') (left, rx) h =
      let more = for_actor a (queued (get env.channels w.msg_rx)) in
      (
        more,
        rw (left, rx) (sym (append_assoc (for_actor a (e ∷ [])) _ more) ∙ ap (λ l. l ++ more) h),
      )

  on_dequeued-Moves :
      (st : Mail types → Bool) (b : ℕ) (w : Worker types)
      (r : Scheduler (Dispatch types) × Option (Mail types)) (env : Env types)
      (before : List (Mail types))
      → ((e : Mail types) (x : Bool) → log_dequeued c w r env ≡ (e, x) ∷ [] → st e ≡ x)
      → for_actor a (list_of (after_dequeue st b r).1) ++ pending (after_dequeue st b r).0 a
        ≡ before
      → Moves a before (mails (log_dequeued c w r env)) (on_dequeued c b w r env)
  unfolding on_dequeued log_dequeued after_dequeue list_of for_actor
  on_dequeued-Moves st b w (s, none) env before agree h =
      let more = for_actor a (queued (get env.channels w.msg_rx)) in (more, ap (λ l. l ++ more) h)
  on_dequeued-Moves st b w (s, some e) env before agree h =
      let w' : Worker types = record w { scheduler = s } in
      finish_turn-Moves st b e w' before (dispatch c e w' env)
        (rw (agree e _ refl) (dispatch-Left c calm e w' env)) h

  pub leave-Moves :
      (order : List ℕ → List ℕ) (w : Worker types) (before : List (Mail types)) (env : Env types)
      → Moves a before [] (leave c order w env)
  unfolding leave
  leave-Moves order w before env = go (stop_all_actors c order w env)
    where
      go :
          (r : Env types × Outcome (Worker types))
          → Moves a before [] (and_then c r (λ w' env'. (env', returned (returns w'))))
      go (env', panicked m) = tt
      go (env', returned w') = tt

  on_waited-Moves :
      (order : List ℕ → List ℕ) (w : Worker types) (before : List (Mail types))
      (r : Env types × Received types)
      → pending w.scheduler a ≡ before
      → Moves a before [] (on_waited c order w r)
  unfolding on_waited for_actor
  on_waited-Moves order w before (env, disconnected) h = leave-Moves order w before env
  on_waited-Moves order w before (env, empty) h =
      let more = for_actor a (queued (get env.channels w.msg_rx)) in (more, ap (λ l. l ++ more) h)
  on_waited-Moves order w before (env, message e) h =
      let more = for_actor a (queued (get env.channels w.msg_rx)) in
      elim (Bool-cases (e.actor_id == a)) [
        | inl same ↦ (
          e ∷ more,
          rw (pending-enqueue e w.scheduler a, same)
              (append_assoc (pending w.scheduler a) (e ∷ []) more ∙ ap (λ l. l ++ e ∷ more) h),
        )
        | inr other ↦ (more, rw (pending-enqueue e w.scheduler a, other) (ap (λ l. l ++ more) h))
      ]

  on_ready-Moves :
      (order : List ℕ → List ℕ) (late : List (Mail types)) (st : Mail types → Bool)
      (w : Worker types) (r : Scheduler (Dispatch types) × Option ℕ) (env : Env types)
      (before : List (Mail types))
      → ((e : Mail types) (x : Bool) → log_ready c w r env ≡ (e, x) ∷ [] → st e ≡ x)
      → for_actor a (list_of (after_ready st r).1) ++ pending (after_ready st r).0 a ≡ before
      → Moves a before (mails (log_ready c w r env)) (on_ready c order late w r env)
  unfolding on_ready log_ready after_ready list_of for_actor
  on_ready-Moves order late st w (s, some b) env before agree h =
      on_dequeued-Moves st b w (dequeue b s) env before agree h
  on_ready-Moves order late st w (s, none) env before agree h =
      on_waited-Moves order (record w { scheduler = s }) before
        (try_recv w.msg_rx (contains env.shared.msg_txs w.msg_rx) (post_all w.msg_rx late env)) h

  -- Which messages stop their actor, as the log has it.
  abbrev stopping : Log types → Mail types → Bool
  stopping l e = if e.actor_id == a then false else flag l

  stopping-agrees :
      (l : Log types) (e : Mail types) (x : Bool) → Spared a l → l ≡ (e, x) ∷ [] → stopping l e ≡ x
  stopping-agrees [] e x spared h = absurd cc
  stopping-agrees ((e', x') ∷ l) e x spared h =
      let same_mail : e' ≡ e = cc in
      let same_flag : x' ≡ x = cc in
      elim (Bool-cases (e.actor_id == a)) [
        | inl same ↦ rw same (
            sym (spared.0 (ap (λ (m : Mail types). m.actor_id) same_mail ∙ (==_iff _ _).0 same))
            ∙ same_flag)
        | inr other ↦ rw other same_flag
      ]

  stopping-Stays : (l : Log types) (e : Mail types) → e.actor_id ≡ a → stopping l e ≡ false
  stopping-Stays l e h = ground (arith, h)

  -- An iteration without control messages, of a worker whose scheduler is valid: where the message
  -- that it serves does not stop the actor, it is the oldest of the actor's, if it is the actor's,
  -- and the others keep their order.
  pub serve-Moves :
      (order : List ℕ → List ℕ) (late : List (Mail types)) (w : Worker types) (env : Env types)
      → Valid w.scheduler
      → Spared a (log_serve c w env)
      → Moves a (backlog a w env) (mails (log_serve c w env)) (serve c order late w env)
  unfolding serve log_serve
  serve-Moves order late w env v spared =
      let w' = (drain w env).1 in
      let st = stopping (log_serve c w env) in
      on_ready-Moves order late st w' (next_ready w'.scheduler) (drain w env).0 (backlog a w env)
        (λ e x h. stopping-agrees (log_serve c w env) e x spared h)
        (unfold turn in
          turn-fifo st a w'.scheduler (drain-Valid w env v) (stopping-Stays (log_serve c w env))
          ∙ drain-pending a w env)
