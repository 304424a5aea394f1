-- ===== src/Worker/Closed.antt =====
-- src/runtime.rs: the channel of a worker whose thread has ended.
use actinium_actor.Prelude.{
  contains, true, ℕ, ◌≡◌, refl, ap, ◌∙◌, sym, subst, false, Option, none, some, List, [], ◌∷◌,
  arith,
}
use actinium_actor.HashMap.{HashMap, get}
use actinium_actor.HashMap.Laws.{get-insert}
use actinium_actor.Actor.{Types, Code, Addr, failed, runtime_shutdown}
use actinium_actor.Actor.Store.{Mail, Channel, Env, drop_envelope, channel_send, do_send, send}
use actinium_actor.Worker.{Worker, drop_all}
use actinium_actor.Worker.Held.{Held, drop_all-Held, close_one-Held, insert_channel-Held}
use actinium_actor.Worker.Receive.{channels-drop}
use actinium_actor.Worker.Dropped.{close, close_on, drop_mailboxes, drop_worker}

module _ {t : Types} where
  drop_all-channels : (q : List (Mail t)) (env : Env t) → (drop_all q env).channels ≡ env.channels
  unfolding drop_all
  drop_all-channels [] env = refl
  drop_all-channels (e ∷ q) env = drop_all-channels q (drop_envelope e env) ∙ channels-drop e env

  drop_mailboxes-channels :
      (boxes : HashMap (List (Mail t))) (env : Env t)
      → (drop_mailboxes boxes env).channels ≡ env.channels
  unfolding drop_mailboxes
  drop_mailboxes-channels [] env = refl
  drop_mailboxes-channels ((a, q) ∷ boxes) env =
      drop_mailboxes-channels boxes (drop_all q env) ∙ drop_all-channels q env

  close-shut :
      (m : ℕ) (env : Env t) (ch : Channel t)
      → get env.channels m ≡ some ch
      → get (close m env).channels m ≡ some (record ch { queue = []; receiver = false })
  unfolding close close_on
  close-shut m env ch h =
      let shut : Channel t = record ch { queue = []; receiver = false } in
      rw h (
        ap (λ x. get x m) (drop_all-channels ch.queue _)
        ∙ ground (arith, get-insert m shut env.channels m))

  drop_worker-shut :
      (w : Worker t) (env : Env t) (ch : Channel t)
      → get env.channels w.msg_rx ≡ some ch
      → get (drop_worker w env).channels w.msg_rx
        ≡ some (record ch { queue = []; receiver = false })
  unfolding drop_worker
  drop_worker-shut w env ch h =
      ap (λ x. get x w.msg_rx) (drop_mailboxes-channels w.scheduler.mailboxes _)
      ∙ close-shut w.msg_rx env ch h

  pub do_send-shut :
      (addr : Addr t) (msg : t.Msg) (env : Env t) (ch : Channel t)
      → get env.channels addr.tx ≡ some ch
      → ch.receiver ≡ false
      → (do_send addr msg env).1 ≡ failed runtime_shutdown
  unfolding do_send channel_send
  do_send-shut addr msg env ch h r = rw (do_send, channel_send, h, r) refl

  pub send-shut :
      (addr : Addr t) (msg : t.Msg) (env : Env t) (ch : Channel t)
      → get env.channels addr.tx ≡ some ch
      → ch.receiver ≡ false
      → (send addr msg env).1 ≡ failed runtime_shutdown
  unfolding send channel_send
  send-shut addr msg env ch h r = rw (send, channel_send, h, r) refl

  -- After the thread of a worker has ended, `send` and `do_send` to an address of its actors fail
  -- with the error of the shutdown, where the channel of the address was there.
  pub drop_worker-RuntimeShutdown :
      (w : Worker t) (env : Env t) (ch : Channel t) (addr : Addr t) (msg : t.Msg)
      → get env.channels w.msg_rx ≡ some ch
      → addr.tx ≡ w.msg_rx
      → ((do_send addr msg (drop_worker w env)).1 ≡ failed runtime_shutdown)
        × ((send addr msg (drop_worker w env)).1 ≡ failed runtime_shutdown)
  drop_worker-RuntimeShutdown w env ch addr msg h tx =
      let ch' : Channel t = record ch { queue = []; receiver = false } in
      let shut =
        subst (λ m. get (drop_worker w env).channels m ≡ some ch') (sym tx)
          (drop_worker-shut w env ch h) in
      (do_send-shut addr msg _ ch' shut refl, send-shut addr msg _ ch' shut refl)

module _ (c : Code) (txs : List ℕ) (n : ℕ) (shut : List ℕ) where
  open c use {types}

  drop_mailboxes-Held :
      (boxes : HashMap (List (Mail types))) (env : Env types)
      → Held txs n shut env
      → Held txs n shut (drop_mailboxes boxes env)
  unfolding drop_mailboxes
  drop_mailboxes-Held [] env h = h
  drop_mailboxes-Held ((a, q) ∷ boxes) env h =
      drop_mailboxes-Held boxes (drop_all q env) (drop_all-Held c txs n shut q env h)

  close_on-Held :
      (m : ℕ) (o : Option (Channel types)) (env : Env types)
      → Held txs n shut env
      → Held txs n shut (close_on m o env)
  unfolding close_on
  close_on-Held m none env h = h
  close_on-Held m (some ch) env h =
      drop_all-Held c txs n shut ch.queue _ (insert_channel-Held txs n shut m _ env (λ _. refl) h)

  -- The end of a worker's thread leaves the other workers what they need, and closes its channel.
  pub drop_worker-Held :
      (w : Worker types) (env : Env types)
      → contains txs w.msg_rx ≡ true
      → Held txs n shut env
      → Held txs n (w.msg_rx ∷ shut) (drop_worker w env)
  drop_worker-Held w env has h =
      let (ch, there) = h.channels w.msg_rx has in
      close_one-Held txs n shut w.msg_rx (drop_worker w env)
        (record ch { queue = []; receiver = false }, drop_worker-shut w env ch there, refl)
        (unfold drop_worker close in
          drop_mailboxes-Held w.scheduler.mailboxes (close w.msg_rx env)
            (close_on-Held w.msg_rx (get env.channels w.msg_rx) env h))
