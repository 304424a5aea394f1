-- ===== src/Worker/Receive.antt =====
-- What a worker receives: its channel, the messages that it drains, and the hooks that it calls.
use actinium_actor.Prelude.{
  ℕ, ◌≡◌, refl, ap, ◌∙◌, Bool, true, false, Option, none, some, List, [], ◌∷◌, ◌++◌, contains,
  if◌then◌else◌, arith, Bool-cases, Option-cases, inl, inr,
}
use actinium_actor.HashMap.{get}
use actinium_actor.HashMap.Laws.{get-insert}
use actinium_actor.Outcome.{Outcome, Returns}
use actinium_actor.Scheduler.{Scheduler, enqueue, remove_actor}
use actinium_actor.Scheduler.History.{Event, arrives, run, step}
use actinium_actor.Actor.{Types, Code}
use actinium_actor.Actor.Store.{
  Dispatch, Mail, Channel, ActorCell, Env, drop_envelope, drop_reply, channel_send, push,
}
use actinium_actor.Actor.Exec.{Context, End, finished, unwound}
use actinium_actor.Actor.Call.{call_on_stop}
use actinium_actor.System.{
  Received, message, empty, disconnected, try_recv, try_recv_on, take_first,
}
use actinium_actor.Worker.{Worker, enqueue_all, drain, drain_channel, post_all}

-- The worker's channel is there, and `shared` holds a sender of it.
abbrev pub Attached : {t : Types} → Worker t → Env t → Type 0
Attached w env =
    (contains env.shared.msg_txs w.msg_rx ≡ true)
    × (ch : Channel _) × (get env.channels w.msg_rx ≡ some ch)

abbrev pub Finishes : {t : Types} {R : Type 0} → End t R → Type 0
Finishes (finished _ _) = Unit {0}
Finishes (unwound _ _) = ⊥

-- The `stopped` of the program's actors does not panic.
abbrev pub Calm : Code → Type 0
Calm c =
    (cell : ActorCell c.types) (ctx : Context) (env : Env c.types)
    → Finishes (call_on_stop c cell ctx env).1

-- Messages that come one after the other.
unfoldable pub come : {t : Types} → List (Mail t) → List (Event (Dispatch t))
come [] = []
come (e ∷ q) = arrives e ∷ come q

-- The messages that wait in a channel.
abbrev pub queued : {t : Types} → Option (Channel t) → List (Mail t)
queued none = []
queued (some ch) = ch.queue

pub run-come :
    {t : Types} (stops : Mail t → Bool) (q : List (Mail t)) (es : List (Event (Dispatch t)))
    (s : Scheduler (Dispatch t))
    → (run stops (come q ++ es) s).0 ≡ (run stops es (enqueue_all q s)).0
unfolding run come enqueue_all step
run-come stops [] es s = refl
run-come stops (e ∷ q) es s = run-come stops q es (enqueue e s)

pub channels-drop :
    {t : Types} (e : Mail t) (env : Env t) → (drop_envelope e env).channels ≡ env.channels
unfolding drop_envelope drop_reply
channels-drop e env = elim (Option-cases e.dispatch.reply) [ inl h ↦ rw h | inr (k, h) ↦ rw h ]

shared-drop : {t : Types} (e : Mail t) (env : Env t) → (drop_envelope e env).shared ≡ env.shared
unfolding drop_envelope drop_reply
shared-drop e env = elim (Option-cases e.dispatch.reply) [ inl h ↦ rw h | inr (k, h) ↦ rw h ]

pub shared-channel_send :
    {t : Types} (k : ℕ) (e : Mail t) (env : Env t) → (channel_send k e env).0.shared ≡ env.shared
unfolding push channel_send
shared-channel_send k e env = elim (Option-cases (get env.channels k)) [
  | inl h ↦ rw (channel_send, h) (shared-drop e env)
  | inr (ch, h) ↦ elim (Bool-cases ch.receiver) [
    | inl r ↦ rw (channel_send, h, r)
    | inr r ↦ rw (channel_send, h, r) (shared-drop e env)
  ]
]

pub channel_send-refused :
    {t : Types} (k : ℕ) (e : Mail t) (env : Env t) (ch : Channel t)
    → get env.channels k ≡ some ch
    → ch.receiver ≡ false
    → (channel_send k e env).0.channels ≡ env.channels
unfolding push channel_send
channel_send-refused k e env ch h r = rw (channel_send, h, r) (channels-drop e env)

channel_send-there :
    {t : Types} (k : ℕ) (e : Mail t) (env : Env t) (ch : Channel t)
    → get env.channels k ≡ some ch
    → (ch' : Channel t) × (get (channel_send k e env).0.channels k ≡ some ch')
unfolding push channel_send
channel_send-there k e env ch h = elim (Bool-cases ch.receiver) [
  | inl r ↦
      let ch' : Channel _ = record ch { queue = ch.queue ++ e ∷ [] } in
      (ch', rw (channel_send, h, r) (ground (arith, get-insert k ch' env.channels k)))
  | inr r ↦ (ch, ap (λ m. get m k) (channel_send-refused k e env ch h r) ∙ h)
]

pub post_all-Attached :
    {t : Types} (q : List (Mail t)) (w : Worker t) (env : Env t)
    → Attached w env
    → Attached w (post_all w.msg_rx q env)
unfolding post_all
post_all-Attached [] w env h = h
post_all-Attached (e ∷ q) w env (held, ch, there) =
    let (ch', there') = channel_send-there w.msg_rx e env ch there in
    post_all-Attached q w (channel_send w.msg_rx e env).0
      (rw (shared-channel_send w.msg_rx e env) held, ch', there')

pub drain-Attached :
    {t : Types} (w : Worker t) (env : Env t) → Attached w env → Attached w (drain w env).0
unfolding drain drain_channel
drain-Attached w env (held, ch, there) =
    let ch' : Channel _ = record ch { queue = [] } in
    (rw there held, ch', rw there (ground (arith, get-insert w.msg_rx ch' env.channels w.msg_rx)))

pub drain-msg_rx : {t : Types} (w : Worker t) (env : Env t) → (drain w env).1.msg_rx ≡ w.msg_rx
unfolding drain drain_channel
drain-msg_rx w env = go (get env.channels w.msg_rx)
  where
    go : (o : Option (Channel _)) → (drain_channel w o env).1.msg_rx ≡ w.msg_rx
    go none = refl
    go (some ch) = refl

pub drain-scheduler :
    {t : Types} (w : Worker t) (env : Env t)
    → (drain w env).1.scheduler ≡ enqueue_all (queued (get env.channels w.msg_rx)) w.scheduler
unfolding drain drain_channel enqueue_all
drain-scheduler w env = go (get env.channels w.msg_rx)
  where
    go :
        (o : Option (Channel _))
        → (drain_channel w o env).1.scheduler ≡ enqueue_all (queued o) w.scheduler
    go none = refl
    go (some ch) = refl

-- What a dispatch to actor `a` leaves: the scheduler with the actor, or without it if it is stopped.
abbrev pub Left : {t : Types} → ℕ → Worker t → Bool → Outcome (Worker t) → Type 0
Left a w stopped o = Returns o (λ w'.
    (w'.scheduler ≡ (if stopped then remove_actor a w.scheduler else w.scheduler))
    × (w'.msg_rx ≡ w.msg_rx))

-- The receive did not find the channel disconnected.
abbrev pub Open : {t : Types} → Received t → Type 0
Open (message e) = Unit {0}
Open empty = Unit {0}
Open disconnected = ⊥

pub try_recv-Open :
    {t : Types} (w : Worker t) (held : Bool) (env : Env t) (ch : Channel t)
    → held ≡ true
    → get env.channels w.msg_rx ≡ some ch
    → Open (try_recv w.msg_rx held env).1
unfolding try_recv try_recv_on take_first
try_recv-Open w held env ch open_ there = rw (there, open_) (go ch.queue)
  where
    go : (q : List (Mail _)) → Open (take_first w.msg_rx ch true q env).1
    go [] = tt
    go (e ∷ q) = tt
