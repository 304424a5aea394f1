-- ===== src/Worker/Held.antt =====
-- What a worker needs of the shared state, and that every script, closure and step keeps it.
use actinium_actor.Prelude.{
  sym, subst, false, ==_iff, ℕ, ◌≡◌, ap, ◌∙◌, true, none, some, [], ◌∷◌, ◌++◌, ◌==◌, contains,
  length, length-set, arith, Bool-cases, Option-cases, inl, inr, List,
}
use actinium_actor.HashMap.{HashMap, get, insert}
use actinium_actor.HashMap.Laws.{get-insert}
use actinium_actor.Actor.{Types, Code, Addr, SendResult}
use actinium_actor.Actor.Store.{
  Mail, Channel, ActorCell, SpawnShared, Env, do_send, drop_envelope, channel_send, push,
}
use actinium_actor.Actor.Frame.{Shape, Kept, drop_reply-Inv}
use actinium_actor.Worker.{Worker, set_actor_map, drop_all, post_all}
use actinium_actor.Worker.Receive.{channels-drop, shared-channel_send, channel_send-refused}

-- The receiver of the channel `m` has gone.
abbrev pub Closed : {t : Types} → ℕ → Env t → Type 0
Closed m env = (ch : Channel _) × (get env.channels m ≡ some ch) × (ch.receiver ≡ false)

-- The senders that the shared state holds, of channels that are there, and as many actor maps as it
-- counts workers; `shut` are channels whose receiver has gone.
pub record Held {t : Types} (txs : List ℕ) (n : ℕ) (shut : List ℕ) (env : Env t) : Type 0 where
  pub senders : env.shared.msg_txs ≡ txs
  pub channels : (m : ℕ) → contains txs m ≡ true → (ch : Channel t) × (get env.channels m ≡ some ch)
  pub closed : (m : ℕ) → contains shut m ≡ true → Closed m env
  pub maps : length env.shared.actor_maps ≡ n
  pub count : env.shared.num_workers ≡ n

module _ {t : Types} (txs : List ℕ) (n : ℕ) (shut : List ℕ) where
  -- No send closes a channel, its own or another.
  channel_send-keeps :
      (m k : ℕ) (e : Mail t) (env : Env t) (ch : Channel t)
      → get env.channels m ≡ some ch
      → (ch' : Channel t) × (get (channel_send k e env).0.channels m ≡ some ch')
  unfolding push channel_send
  channel_send-keeps m k e env ch h = elim (Option-cases (get env.channels k)) [
    | inl none_ ↦ (ch, rw (channel_send, none_) (ap (λ x. get x m) (channels-drop e env) ∙ h))
    | inr (d, there) ↦ elim (Bool-cases d.receiver) [
      | inr shut ↦ (ch, ap (λ x. get x m) (channel_send-refused k e env d there shut) ∙ h)
      | inl open_ ↦
          let d' : Channel _ = record d { queue = d.queue ++ e ∷ [] } in
          let after = get-insert k d' env.channels m in
          elim (Bool-cases (k == m)) [
            | inl same ↦ (d', rw (channel_send, there, open_) (ground (arith, after)))
            | inr other ↦ (ch, rw (channel_send, there, open_) (ground (arith, after)))
          ]
    ]
  ]

  -- A send leaves a channel without a receiver as it is.
  channel_send-Closed :
      (m k : ℕ) (e : Mail t) (env : Env t) → Closed m env → Closed m (channel_send k e env).0
  unfolding push channel_send
  channel_send-Closed m k e env (ch, h, r) = elim (Option-cases (get env.channels k)) [
    | inl none_ ↦ (ch, rw (channel_send, none_) (ap (λ x. get x m) (channels-drop e env) ∙ h), r)
    | inr (d, there) ↦ elim (Bool-cases d.receiver) [
      | inr gone ↦ (ch, ap (λ x. get x m) (channel_send-refused k e env d there gone) ∙ h, r)
      | inl open_ ↦
          let d' : Channel _ = record d { queue = d.queue ++ e ∷ [] } in
          let after = get-insert k d' env.channels m in
          elim (Bool-cases (k == m)) [
            | inl same ↦ absurd (opens m k ch d h there ((==_iff k m).0 same) r open_)
            | inr other ↦ (ch, rw (channel_send, there, open_) (ground (arith, after)), r)
          ]
    ]
  ]
    where
      opens :
          (m k : ℕ) (ch d : Channel t)
          → get env.channels m ≡ some ch
          → get env.channels k ≡ some d
          → k ≡ m
          → ch.receiver ≡ false
          → d.receiver ≡ true
          → ⊥
      opens m k ch d h there same r open_ = cc

  pub channel_send-Held :
      (k : ℕ) (e : Mail t) (env : Env t)
      → Held txs n shut env
      → Held txs n shut (channel_send k e env).0
  channel_send-Held k e env h = record {
    senders = rw (shared-channel_send k e env) h.senders;
    count = rw (shared-channel_send k e env) h.count;
    channels = λ m held. channel_send-keeps m k e env _ (h.channels m held).1;
    closed = λ m gone. channel_send-Closed m k e env (h.closed m gone);
    maps = rw (shared-channel_send k e env) h.maps;
  }

  do_send-Held :
      (addr : Addr t) (msg : t.Msg) (env : Env t)
      → Held txs n shut env
      → Held txs n shut (do_send addr msg env).0
  unfolding do_send
  do_send-Held addr msg env h =
      channel_send-Held addr.tx
        (record {
          actor_id = addr.actor_id;
          dispatch = record { kind = addr.kind; msg = msg; reply = none };
        })
        env h

  spawns-Held :
      (s : SpawnShared t) (env : Env t)
      → Shape env.shared s
      → Held txs n shut env
      → Held txs n shut (record env { shared = s })
  spawns-Held s env shape h = record {
    senders = shape.senders ∙ h.senders;
    count = shape.count ∙ h.count;
    channels = h.channels;
    closed = h.closed;
    maps = shape.maps ∙ h.maps;
  }

  pub set_actor_map-Held :
      (w : Worker t) (x : HashMap (ActorCell t)) (env : Env t)
      → Held txs n shut env
      → Held txs n shut (set_actor_map w x env)
  unfolding set_actor_map
  set_actor_map-Held w x env h = record {
    senders = h.senders;
    count = h.count;
    channels = h.channels;
    closed = h.closed;
    maps = length-set env.shared.actor_maps w.worker_idx x ∙ h.maps;
  }

  -- A channel takes the place of `m`, which has a receiver only if it may have one.
  pub insert_channel-Held :
      (m : ℕ) (ch : Channel t) (env : Env t)
      → (contains shut m ≡ true → ch.receiver ≡ false)
      → Held txs n shut env
      → Held txs n shut (record env { channels = insert m ch env.channels })
  insert_channel-Held m ch env gone h = record {
    senders = h.senders;
    count = h.count;
    channels = λ k held.
        let (d, there) = h.channels k held in
        elim (Bool-cases (m == k)) [
          | inl same ↦ (ch, ground (arith, get-insert m ch env.channels k))
          | inr other ↦ (d, ground (arith, get-insert m ch env.channels k))
        ];
    closed = λ k held.
        let (d, there, r) = h.closed k held in
        elim (Bool-cases (m == k)) [
          | inl same ↦ (
            ch,
            ground (arith, get-insert m ch env.channels k),
            gone (subst (λ x. contains shut x ≡ true) (sym ((==_iff m k).0 same)) held),
          )
          | inr other ↦ (d, ground (arith, get-insert m ch env.channels k), r)
        ];
    maps = h.maps;
  }

  pub close_one-Held :
      (m : ℕ) (env : Env t) → Closed m env → Held txs n shut env → Held txs n (m ∷ shut) env
  close_one-Held m env gone h = record {
    senders = h.senders;
    count = h.count;
    channels = h.channels;
    closed = λ k held. elim (Bool-cases (m == k)) [
      | inl same ↦ subst (λ x. Closed x env) ((==_iff m k).0 same) gone
      | inr other ↦ h.closed k (ground (arith, held, other))
    ];
    maps = h.maps;
  }

  -- The channel that is found at a closed place has no receiver.
  pub receiver-gone :
      (m : ℕ) (ch : Channel t) (env : Env t)
      → Held txs n shut env
      → get env.channels m ≡ some ch
      → contains shut m ≡ true
      → ch.receiver ≡ false
  receiver-gone m ch env h found gone =
      let (d, there, r) = h.closed m gone in
      let same : d ≡ ch = cc in ap (λ (x : Channel t). x.receiver) (sym same) ∙ r

pub held : (c : Code) (txs : List ℕ) (n : ℕ) (shut : List ℕ) → Kept c (Held txs n shut)
held c txs n shut = record {
  sends = do_send-Held txs n shut;
  writes = λ w env h. record {
    senders = h.senders;
    count = h.count;
    channels = h.channels;
    closed = h.closed;
    maps = h.maps;
  };
  spawns = spawns-Held txs n shut;
}

module _ (c : Code) (txs : List ℕ) (n : ℕ) (shut : List ℕ) where
  open c use {types, Any}

  pub replies-Held :
      (r : HashMap (SendResult c.Val)) (env : Env types)
      → Held txs n shut env
      → Held txs n shut (record env { replies = r })
  replies-Held r env h = record {
    senders = h.senders;
    count = h.count;
    channels = h.channels;
    closed = h.closed;
    maps = h.maps;
  }

  drop_envelope-Held :
      (e : Mail types) (env : Env types)
      → Held txs n shut env
      → Held txs n shut (drop_envelope e env)
  unfolding drop_envelope
  drop_envelope-Held e env h =
      drop_reply-Inv c (Held txs n shut) (held c txs n shut) replies-Held e.dispatch.reply env h

  pub drop_all-Held :
      (q : List (Mail types)) (env : Env types)
      → Held txs n shut env
      → Held txs n shut (drop_all q env)
  unfolding drop_all
  drop_all-Held [] env h = h
  drop_all-Held (e ∷ q) env h = drop_all-Held q _ (drop_envelope-Held e env h)

  pub post_all-Held :
      (q : List (Mail types)) (k : ℕ) (env : Env types)
      → Held txs n shut env
      → Held txs n shut (post_all k q env)
  unfolding post_all
  post_all-Held [] k env h = h
  post_all-Held (e ∷ q) k env h = post_all-Held q k _ (channel_send-Held txs n shut k e env h)
