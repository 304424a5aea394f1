-- ===== src/TestKit/Probe.antt =====
-- src/testkit.rs: `TestProbe` and `ProbeActor`. The vector of a probe is shared between its actor and
-- its handles, and so is a part of the world.
use actinium_actor.Prelude.{
  ℕ, ◌≡◌, Bool, false, ◌||◌, Option, none, some, List, [], ◌∷◌, ◌++◌, length, ltb, ◌==◌,
  if◌then◌else◌,
}
use actinium_actor.Outcome.{Outcome, returned, panicked}
use actinium_actor.Actor.{Types, Code, Addr, Script, done, read, write}
use actinium_actor.Actor.Store.{Env}
use actinium_actor.TestKit.{TestKit, spawn}

-- Where the world keeps the vectors, by number.
pub record Shelf (t : Types) : Type 0 where
  pub vector : t.World → ℕ → List t.Msg
  pub put : ℕ → List t.Msg → t.World → t.World
  pub vector-put :
      (k j : ℕ) (l : List t.Msg) (w : t.World)
      → vector (put k l w) j ≡ (if k == j then l else vector w j)

pub record TestProbe (t : Types) : Type 0 where
  pub messages : ℕ
  pub addr : Addr t

module _ {t : Types} (shelf : Shelf t) where
  unfoldable pub all : TestProbe t → t.World → List t.Msg
  all probe w = shelf.vector w probe.messages

  unfoldable pub count : TestProbe t → t.World → ℕ
  unfolding all
  count probe w = length (all probe w)

  unfoldable pub received_any : TestProbe t → t.World → Bool
  unfolding count
  received_any probe w = ltb 0 (count probe w)

  abbrev head : List t.Msg → Option t.Msg
  head [] = none
  head (m ∷ ms) = some m

  unfoldable pub first : TestProbe t → t.World → Option t.Msg
  unfolding all
  first probe w = head (all probe w)

  unfoldable pub reset : TestProbe t → t.World → t.World
  reset probe w = shelf.put probe.messages [] w

  abbrev pub any : (t.Msg → Bool) → List t.Msg → Bool
  any predicate [] = false
  any predicate (m ∷ ms) = let rest = any predicate ms in predicate m || rest

  unfoldable pub any_match : (t.Msg → Bool) → TestProbe t → t.World → Bool
  unfolding all
  any_match predicate probe w = any predicate (all probe w)

  -- The handler of `ProbeActor`, which `actor` is; `default` is `M::Result::default()`.
  unfoldable pub probe_handle : ℕ → t.Any → t.Val → t.Msg → Script t (t.Any × t.Val)
  probe_handle messages actor default msg = read λ w.
      write (shelf.put messages (shelf.vector w messages ++ msg ∷ []) w) (done (actor, default))

unfoldable pub id : {t : Types} → TestProbe t → ℕ
id probe = probe.addr.actor_id

-- `addr`, and `recipient`, a clone of it.
unfoldable pub recipient : {t : Types} → TestProbe t → Addr t
recipient probe = probe.addr

-- The program has the probes among its actors: `actor k` is the `ProbeActor` of vector `k`.
pub record Probes (c : Code) : Type 1 where
  pub shelf : Shelf c.types
  pub actor : ℕ → c.Any
  pub kind : c.Kind
  pub default : c.Val
  pub type_of : (k : ℕ) → c.type_of (actor k) ≡ kind
  pub started : (k : ℕ) → c.started (actor k) ≡ done (actor k)
  pub handles :
      (k : ℕ) (msg : c.Msg) → c.handle (actor k) msg ≡ probe_handle shelf k (actor k) default msg

module _ (c : Code) (p : Probes c) where
  open c use {types}

  unfoldable pub probe_of :
      ℕ
      → Env types × Outcome (TestKit types × Addr types)
      → Env types × Outcome (TestKit types × TestProbe types)
  probe_of messages (env, panicked m) = (env, panicked m)
  probe_of messages (env, returned (kit, addr)) =
      (env, returned (kit, record { messages = messages; addr = addr }))

  -- `TestKit::spawn_probe`, whose new vector has the number `messages`.
  unfoldable pub spawn_probe :
      ℕ → TestKit types → Env types → Env types × Outcome (TestKit types × TestProbe types)
  unfolding probe_of
  spawn_probe messages kit env =
      probe_of messages
        (spawn c (p.actor messages) kit (record env { world = p.shelf.put messages [] env.world }))
