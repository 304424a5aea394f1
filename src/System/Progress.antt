-- ===== src/System/Progress.antt =====
-- The loops return when the handlers have nothing more to send.
use actinium_actor.Prelude.{
  ℕ, ◌≡◌, refl, ap, ◌∙◌, Bool, Option, none, some, List, ◌∷◌, arith, Bool-cases, inl, inr,
}
use actinium_actor.HashMap.{get, insert}
use actinium_actor.HashMap.Laws.{get-insert}
use actinium_actor.Outcome.{Outcome, returned, panicked}
use actinium_actor.Actor.{Types, Code}
use actinium_actor.Actor.Store.{Mail, Channel, ActorCell, Env, drop_envelope}
use actinium_actor.Actor.Exec.{new, is_running, End, finished, unwound}
use actinium_actor.Actor.Call.{call_on_stop}
use actinium_actor.Actor.Silent.{
  Silent, drop_reply-channels, call_on_stop-channels, call_dispatch-channels,
}
use actinium_actor.System.{
  after_stop, remove_actor, stop_cell, after_handle, dispatch_to, ActorSystem, Received, message,
  empty, disconnected, try_recv, try_recv_on, take_first, dispatch,
}

-- The pass is over: a handler panicked, or `n` messages were processed.
abbrev pub Processed : {t : Types} → ℕ → Option (Outcome (ActorSystem t × ℕ)) → Type 0
Processed n none = ⊥
Processed n (some (panicked m)) = Unit {0}
Processed n (some (returned x)) = x.1 ≡ n

-- Nothing was received.
abbrev pub Nothing : {t : Types} → Env t × Received t → Type 0
Nothing (env, message e) = ⊥
Nothing (env, empty) = Unit {0}
Nothing (env, disconnected) = Unit {0}

module _ {t : Types} (k : ℕ) (held : Bool) where
  pub try_recv-cons :
      (env : Env t) (ch : Channel t) (e : Mail t) (q : List (Mail t))
      → get env.channels k ≡ some ch
      → ch.queue ≡ e ∷ q
      → try_recv k held env
        ≡ (record env { channels = insert k (record ch { queue = q }) env.channels }, message e)
  unfolding try_recv try_recv_on take_first
  try_recv-cons env ch e q there h = rw (there, h)

module _ (c : Code) (silent : Silent c) where
  open c use {types, Any}

  after_stop-env :
      (a : ℕ) (sys : ActorSystem types) (r : Env types × End types Any)
      → (after_stop c a sys r).0 ≡ r.0
  unfolding after_stop
  after_stop-env a sys (env, finished x ctx) = refl
  after_stop-env a sys (env, unwound x m) = refl

  remove_actor-channels :
      (a : ℕ) (sys : ActorSystem types) (env : Env types)
      → (remove_actor c a sys env).0.channels ≡ env.channels
  unfolding remove_actor stop_cell
  remove_actor-channels a sys env = go (get sys.actors a)
    where
      go : (o : Option (ActorCell types)) → (stop_cell c a sys o env).0.channels ≡ env.channels
      go none = refl
      go (some cell) =
          ap (λ (x : Env types). x.channels)
            (after_stop-env a sys (call_on_stop c cell (new a) env))
          ∙ call_on_stop-channels c silent cell (new a) env

  after_handle-channels :
      (b : ℕ) (cell : ActorCell types) (sys : ActorSystem types) (r : Env types × End types Any)
      → (after_handle c b cell sys r).0.channels ≡ r.0.channels
  unfolding after_handle
  after_handle-channels b cell sys (env, unwound _ m) = refl
  after_handle-channels b cell sys (env, finished actor ctx) = elim (Bool-cases (is_running ctx)) [
    | inl go ↦ rw go
    | inr halt ↦ rw halt (remove_actor-channels b _ env)
  ]

  pub dispatch-channels :
      (e : Mail types) (sys : ActorSystem types) (env : Env types)
      → (dispatch c e sys env).0.channels ≡ env.channels
  unfolding dispatch dispatch_to drop_envelope
  dispatch-channels e sys env = go (get sys.actors e.actor_id)
    where
      go : (o : Option (ActorCell types)) → (dispatch_to c e sys o env).0.channels ≡ env.channels
      go none = drop_reply-channels types e.dispatch.reply env
      go (some cell) =
          after_handle-channels e.actor_id cell sys _
          ∙ call_dispatch-channels c silent e.dispatch cell.actor (new e.actor_id) env

  pub still_there :
      (e : Mail types) (sys sys' : ActorSystem types) (env : Env types) (ch : Channel types)
      → sys'.rx ≡ sys.rx
      → get
          (dispatch c e sys (record env { channels = insert sys.rx ch env.channels })).0.channels
          sys'.rx
        ≡ some ch
  still_there e sys sys' env ch same =
      rw (dispatch-channels e sys (record env { channels = insert sys.rx ch env.channels }), same)
        (ground (arith, get-insert sys.rx ch env.channels sys.rx))
