-- ===== src/Worker/Backlog.antt =====
-- The messages that wait for an actor on its worker, in its mailbox and in the channel, and what the
-- scripts and the parts of an iteration do to them.
use actinium_actor.Prelude.{
  ℕ, ◌≡◌, refl, sym, ap, ◌∙◌, none, List, [], ◌∷◌, ◌++◌, ◌==◌, arith, append-nil, append_assoc,
  Bool-cases, Option-cases, inl, inr,
}
use actinium_actor.HashMap.{get}
use actinium_actor.HashMap.Laws.{get-insert}
use actinium_actor.Scheduler.{Scheduler, enqueue, pending}
use actinium_actor.Scheduler.Mail.{pending-enqueue}
use actinium_actor.Scheduler.Invariant.{Valid, enqueue-Valid}
use actinium_actor.Scheduler.History.{for_actor}
use actinium_actor.Actor.{Types, Code, Addr}
use actinium_actor.Actor.Store.{Dispatch, Mail, Channel, Env, do_send, channel_send, push}
use actinium_actor.Actor.Frame.{Kept}
use actinium_actor.Worker.{Worker, enqueue_all, drain, post_all}
use actinium_actor.Worker.Receive.{queued, channels-drop, channel_send-refused, drain-scheduler}

-- Oldest first.
abbrev pub backlog : {t : Types} → ℕ → Worker t → Env t → List (Mail t)
backlog a w env = pending w.scheduler a ++ for_actor a (queued (get env.channels w.msg_rx))

-- The channel `m` holds `q`, and behind it what was sent since.
abbrev pub Adds : {t : Types} → ℕ → List (Mail t) → Env t → Type 0
Adds m q env = (more : List (Mail _)) × (queued (get env.channels m) ≡ q ++ more)

module _ {t : Types} where
  channel_send-queued :
      (m k : ℕ) (e : Mail t) (env : Env t)
      → Adds m (queued (get env.channels m)) (channel_send k e env).0
  unfolding push channel_send
  channel_send-queued m k e env =
      let q = queued (get env.channels m) in
      elim (Option-cases (get env.channels k)) [
        | inl gone ↦ (
          [],
          rw (channel_send, gone)
              (ap (λ x. queued (get x m)) (channels-drop e env) ∙ sym (append-nil q)),
        )
        | inr (d, there) ↦ elim (Bool-cases d.receiver) [
          | inr shut ↦ (
            [],
            ap (λ x. queued (get x m)) (channel_send-refused k e env d there shut)
                ∙ sym (append-nil q),
          )
          | inl open_ ↦
              let d' : Channel _ = record d { queue = d.queue ++ e ∷ [] } in
              let after = get-insert k d' env.channels m in
              elim (Bool-cases (k == m)) [
                | inl same ↦
                    (e ∷ [], rw (channel_send, there, open_) (ground (arith, after, there, same)))
                | inr other ↦
                    ([], rw (channel_send, there, open_) (ground (arith, after, append-nil q)))
              ]
        ]
      ]

  channel_send-Adds :
      (m : ℕ) (q : List (Mail t)) (k : ℕ) (e : Mail t) (env : Env t)
      → Adds m q env
      → Adds m q (channel_send k e env).0
  channel_send-Adds m q k e env (more, h) =
      let (more', h') = channel_send-queued m k e env in
      (more ++ more', h' ∙ ap (λ l. l ++ more') h ∙ append_assoc q more more')

  pub post_all-Adds :
      (m : ℕ) (q : List (Mail t)) (k : ℕ) (l : List (Mail t)) (env : Env t)
      → Adds m q env
      → Adds m q (post_all k l env)
  unfolding post_all
  post_all-Adds m q k [] env h = h
  post_all-Adds m q k (e ∷ l) env h = post_all-Adds m q k l _ (channel_send-Adds m q k e env h)

  do_send-Adds :
      (m : ℕ) (q : List (Mail t)) (addr : Addr t) (msg : t.Msg) (env : Env t)
      → Adds m q env
      → Adds m q (do_send addr msg env).0
  unfolding do_send
  do_send-Adds m q addr msg env h =
      channel_send-Adds m q addr.tx
        (record {
          actor_id = addr.actor_id;
          dispatch = record { kind = addr.kind; msg = msg; reply = none };
        })
        env h

  pending-enqueue_all :
      (a : ℕ) (q : List (Mail t)) (s : Scheduler (Dispatch t))
      → pending (enqueue_all q s) a ≡ pending s a ++ for_actor a q
  unfolding enqueue_all for_actor
  pending-enqueue_all a [] s = sym (append-nil (pending s a))
  pending-enqueue_all a (e ∷ q) s =
      pending-enqueue_all a q (enqueue e s) ∙ (elim (Bool-cases (e.actor_id == a)) [
        | inl same ↦
            rw (pending-enqueue e s a, same) (append_assoc (pending s a) (e ∷ []) (for_actor a q))
        | inr other ↦ rw (pending-enqueue e s a, other) refl
      ])

  -- The messages of the channel go behind those of the mailbox.
  pub drain-pending :
      (a : ℕ) (w : Worker t) (env : Env t) → pending (drain w env).1.scheduler a ≡ backlog a w env
  drain-pending a w env =
      ap (λ s. pending s a) (drain-scheduler w env)
      ∙ pending-enqueue_all a (queued (get env.channels w.msg_rx)) w.scheduler

  enqueue_all-Valid :
      (q : List (Mail t)) (s : Scheduler (Dispatch t)) → Valid s → Valid (enqueue_all q s)
  unfolding enqueue_all
  enqueue_all-Valid [] s v = v
  enqueue_all-Valid (e ∷ q) s v = enqueue_all-Valid q (enqueue e s) (enqueue-Valid e s v)

  pub drain-Valid :
      (w : Worker t) (env : Env t) → Valid w.scheduler → Valid (drain w env).1.scheduler
  drain-Valid w env v =
      rw (drain-scheduler w env)
        (enqueue_all-Valid (queued (get env.channels w.msg_rx)) w.scheduler v)

-- The scripts only add to a channel.
pub adds : (c : Code) (m : ℕ) (q : List (Mail c.types)) → Kept c (Adds m q)
adds c m q = record { sends = do_send-Adds m q; writes = λ w env h. h; spawns = λ s env shape h. h }
