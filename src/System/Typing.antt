-- ===== src/System/Typing.antt =====
-- The casts of `dispatch`: an address reaches only actors of its own type.
use actinium_actor.Prelude.{
  ℕ, ◌+◌, ◌%◌, ◌^◌, ◌<◌, ◌≡◌, ◌⊎◌, List, [], ◌∷◌, arith, refl, sym, subst, ◌∙◌, Bool, true, false,
  Option, none, some, if◌then◌else◌, ◌==◌, Bool-cases, ==_iff, inl, inr,
}
use actinium_actor.HashMap.{get, insert}
use actinium_actor.HashMap.Laws.{get-insert}
use actinium_actor.Outcome.{Outcome, returned, panicked, Ensures}
use actinium_actor.Actor.{Code, Addr}
use actinium_actor.Actor.Store.{Dispatch, Mail, ActorCell, Env}
use actinium_actor.Actor.Exec.{Context, is_running, new, End, finished, unwound, exec}
use actinium_actor.Actor.Call.{call_dispatch, dispatch_as, finish_handle}
use actinium_actor.System.{
  ActorSystem, new_system, spawn, spawn_on, insert_started, dispatch, dispatch_to, after_handle,
  remove_actor,
}
use actinium_actor.System.Shell.{Same, dispatch-Same, remove_actor-Same}
use actinium_actor.System.Dispatching.{remove_actor-get, Ensures-map}

module _ (c : Code) where
  open c use {types, Any, Kind, Val}

  -- A run leaves an actor of type `k`.
  abbrev pub Leaves : Kind → End types Any → Type 0
  Leaves k (finished actor _) = c.type_of actor ≡ k
  Leaves k (unwound _ _) = Unit {0}

  abbrev pub LeavesVal : Kind → End types (Any × Val) → Type 0
  LeavesVal k (finished (actor, _) _) = c.type_of actor ≡ k
  LeavesVal k (unwound _ _) = Unit {0}

  -- A handler borrows its actor: it cannot put another type in its place.
  abbrev pub Borrows : Type 0
  Borrows =
      (actor : Any) (msg : c.Msg) (ctx : Context) (env : Env types)
      → LeavesVal (c.type_of actor) (exec c (c.handle actor msg) ctx env).1

  abbrev pub CellTyped : Kind → Option (ActorCell types) → Type 0
  CellTyped k none = Unit {0}
  CellTyped k (some cell) = (c.type_of cell.actor ≡ k) × (cell.on_stop ≡ k)

  -- Every actor that is there has the type that its identifier was given, and so has its `on_stop`.
  abbrev pub Typed : (ℕ → Kind) → ActorSystem types → Type 0
  Typed kinds sys = (a : ℕ) → CellTyped (kinds a) (get sys.actors a)

  unfoldable pub assign : ℕ → Kind → (ℕ → Kind) → ℕ → Kind
  assign id k kinds a = if id == a then k else kinds a

  -- The address is one of those that were given.
  unfoldable pub Given : Addr types → List (Addr types) → Type 0
  Given addr [] = ⊥
  Given addr (x ∷ xs) = (addr ≡ x) ⊎ Given addr xs

  -- What a system goes through, with the types that its identifiers were last given and all the
  -- addresses that it has given; the next identifier does not come to 2^64.
  pub data Life : (ℕ → Kind) → List (Addr types) → ActorSystem types → Type 0 where
    begins : (kinds : ℕ → Kind) (channel : ℕ) → Life kinds [] (new_system channel)
    spawns :
        (kinds : ℕ → Kind) (given : List (Addr types)) (sys sys' : ActorSystem types) (actor : Any)
        (env env' : Env types) (addr : Addr types)
        → Life kinds given sys
        → sys.next_id + 1 < 2 ^ 64
        → spawn c actor sys env ≡ (env', returned (sys', addr))
        → Life (assign addr.actor_id addr.kind kinds) (addr ∷ given) sys'
    serves :
        (kinds : ℕ → Kind) (given : List (Addr types)) (sys sys' : ActorSystem types)
        (e : Mail types) (env env' : Env types)
        → Life kinds given sys
        → dispatch c e sys env ≡ (env', returned sys')
        → Life kinds given sys'
    removes :
        (kinds : ℕ → Kind) (given : List (Addr types)) (sys sys' : ActorSystem types) (a : ℕ)
        (env env' : Env types)
        → Life kinds given sys
        → remove_actor c a sys env ≡ (env', returned sys')
        → Life kinds given sys'

  CellTyped-if :
      (b : Bool) (k : Kind) (o p : Option (ActorCell types))
      → CellTyped k o
      → CellTyped k p
      → CellTyped k (if b then o else p)
  CellTyped-if true k o p h h' = h
  CellTyped-if false k o p h h' = h'

  insert-Typed :
      (kinds : ℕ → Kind) (id : ℕ) (cell : ActorCell types) (sys : ActorSystem types)
      → CellTyped (kinds id) (some cell)
      → Typed kinds sys
      → Typed kinds (record sys { actors = insert id cell sys.actors })
  insert-Typed kinds id cell sys h t a = elim (Bool-cases (id == a)) [
    | inl same ↦
        rw (get-insert id cell sys.actors a, same)
          (subst (λ x. CellTyped (kinds x) (some cell)) ((==_iff _ _).0 same) h)
    | inr other ↦ rw (get-insert id cell sys.actors a, other) (t a)
  ]

  Ensures-all :
      (o : Outcome (ActorSystem types)) (P : ℕ → ActorSystem types → Type 0)
      → ((a : ℕ) → Ensures o (P a))
      → Ensures o (λ sys. (a : ℕ) → P a sys)
  Ensures-all (panicked m) P h = tt
  Ensures-all (returned sys) P h = h

  remove_actor-Typed :
      (kinds : ℕ → Kind) (id : ℕ) (sys : ActorSystem types) (env : Env types)
      → Typed kinds sys
      → Ensures (remove_actor c id sys env).1 (Typed kinds)
  remove_actor-Typed kinds id sys env t = Ensures-all (remove_actor c id sys env).1 _ (λ a.
      Ensures-map c (remove_actor c id sys env).1 _ _ (remove_actor-get c id sys env a)
        (λ sys' g. rw g (CellTyped-if (id == a) (kinds a) none (get sys.actors a) tt (t a))))

  finish_handle-Leaves :
      (reply : Option ℕ) (k : Kind) (r : Env types × End types (Any × Val))
      → LeavesVal k r.1
      → Leaves k (finish_handle c reply r).1
  unfolding finish_handle
  finish_handle-Leaves reply k (env, unwound actor m) h = tt
  finish_handle-Leaves reply k (env, finished (actor, val) ctx) h = h

  call_dispatch-Leaves :
      (d : Dispatch types) (actor : Any) (ctx : Context) (env : Env types)
      → Borrows
      → Leaves (c.type_of actor) (call_dispatch c d actor ctx env).1
  unfolding call_dispatch dispatch_as
  call_dispatch-Leaves d actor ctx env b = go (c.kind_discrete (c.type_of actor) d.kind)
    where
      go :
          (x : Dec (c.type_of actor ≡ d.kind))
          → Leaves (c.type_of actor) (dispatch_as c d actor ctx env x).1
      go (yes _) = finish_handle-Leaves d.reply (c.type_of actor) _ (b actor d.msg ctx env)
      go (no _) = tt

  after_handle-Typed :
      (kinds : ℕ → Kind) (id : ℕ) (cell : ActorCell types) (sys : ActorSystem types)
      (r : Env types × End types Any)
      → CellTyped (kinds id) (some cell)
      → Leaves (kinds id) r.1
      → Typed kinds sys
      → Ensures (after_handle c id cell sys r).1 (Typed kinds)
  unfolding after_handle
  after_handle-Typed kinds id cell sys (env, unwound _ m) h l t = tt
  after_handle-Typed kinds id cell sys (env, finished actor ctx) h l t =
      let kept = insert-Typed kinds id (record cell { actor = actor }) sys (l, h.1) t in
      elim (Bool-cases (is_running ctx)) [
        | inl on ↦ rw on kept
        | inr off ↦ rw off (remove_actor-Typed kinds id _ env kept)
      ]

  dispatch_to-Typed :
      (kinds : ℕ → Kind) (e : Mail types) (sys : ActorSystem types) (o : Option (ActorCell types))
      (env : Env types)
      → Borrows
      → CellTyped (kinds e.actor_id) o
      → Typed kinds sys
      → Ensures (dispatch_to c e sys o env).1 (Typed kinds)
  unfolding dispatch_to
  dispatch_to-Typed kinds e sys none env b h t = t
  dispatch_to-Typed kinds e sys (some cell) env b h t =
      after_handle-Typed kinds e.actor_id cell sys _ h
        (subst (λ k. Leaves k (call_dispatch c e.dispatch cell.actor (new e.actor_id) env).1) (h.0)
          (call_dispatch-Leaves e.dispatch cell.actor _ env b))
        t

  dispatch-Typed :
      (kinds : ℕ → Kind) (e : Mail types) (sys : ActorSystem types) (env : Env types)
      → Borrows
      → Typed kinds sys
      → Ensures (dispatch c e sys env).1 (Typed kinds)
  unfolding dispatch
  dispatch-Typed kinds e sys env b t =
      dispatch_to-Typed kinds e sys (get sys.actors e.actor_id) env b (t e.actor_id) t

  assign-Typed :
      (kinds : ℕ → Kind) (id : ℕ) (cell : ActorCell types) (sys : ActorSystem types)
      → c.type_of cell.actor ≡ cell.on_stop
      → Typed kinds sys
      → Typed (assign id cell.on_stop kinds) (record sys { actors = insert id cell sys.actors })
  unfolding assign
  assign-Typed kinds id cell sys h t a = elim (Bool-cases (id == a)) [
    | inl same ↦ rw (get-insert id cell sys.actors a, same) (h, refl)
    | inr other ↦ rw (get-insert id cell sys.actors a, other) (t a)
  ]

  spawn-Typed :
      (kinds : ℕ → Kind) (actor : Any) (sys : ActorSystem types) (env : Env types)
      → Typed kinds sys
      → Ensures (spawn c actor sys env).1 (λ x. Typed (assign x.1.actor_id x.1.kind kinds) x.0)
  unfolding spawn spawn_on insert_started
  spawn-Typed kinds actor sys env t = go sys.tx
    where
      started :
          (tx : ℕ) (r : Env types × End types Any)
          → Ensures
              (insert_started c sys.next_id tx sys r).1
              (λ x. Typed (assign x.1.actor_id x.1.kind kinds) x.0)
      started tx (env', unwound _ m) = tt
      started tx (env', finished a _) =
          assign-Typed kinds sys.next_id (record { actor = a; on_stop = c.type_of a }) sys refl t

      go :
          (o : Option ℕ)
          → Ensures
              (spawn_on c o actor sys env).1
              (λ x. Typed (assign x.1.actor_id x.1.kind kinds) x.0)
      go none = tt
      go (some tx) = started tx (exec c (c.started actor) (new sys.next_id) env)

  Ensured :
      {X : Type 0} (P : X → Type 0) (r : Env types × Outcome X) (env : Env types) (x : X)
      → r ≡ (env, returned x)
      → Ensures r.1 P
      → P x
  Ensured {X = X} P r env x eq h = subst (λ (y : Env types × Outcome X). Ensures y.1 P) eq h

  Life-Typed :
      (kinds : ℕ → Kind) (given : List (Addr types)) (sys : ActorSystem types)
      → Borrows
      → Life kinds given sys
      → Typed kinds sys
  Life-Typed kinds given sys b (begins _ channel) = unfold new_system get in λ a. tt
  Life-Typed kinds given sys b (spawns k g s _ actor env env' addr l lt eq) =
      Ensured (λ (x : ActorSystem types × Addr types). Typed (assign x.1.actor_id x.1.kind k) x.0) _
        env' (sys, addr) eq (spawn-Typed k actor s env (Life-Typed k g s b l))
  Life-Typed kinds given sys b (serves _ _ s _ e env env' l eq) =
      Ensured (Typed kinds) _ env' sys eq
        (dispatch-Typed kinds e s env b (Life-Typed kinds given s b l))
  Life-Typed kinds given sys b (removes _ _ s _ a env env' l eq) =
      Ensured (Typed kinds) _ env' sys eq
        (remove_actor-Typed kinds a s env (Life-Typed kinds given s b l))

  -- A given address has the type of its identifier, which is not given again.
  abbrev Kept : (ℕ → Kind) → List (Addr types) → ℕ → Type 0
  Kept kinds given next =
      (addr : Addr types)
      → Given addr given
      → (kinds addr.actor_id ≡ addr.kind) × (addr.actor_id < next)

  -- A spawn that returns takes the next identifier.
  abbrev Took : ℕ → ActorSystem types × Addr types → Type 0
  Took next x = (x.1.actor_id ≡ next) × (x.0.next_id ≡ (next + 1) % 2 ^ 64)

  spawn-Took :
      (actor : Any) (sys : ActorSystem types) (env : Env types)
      → Ensures (spawn c actor sys env).1 (Took sys.next_id)
  unfolding spawn spawn_on insert_started
  spawn-Took actor sys env = go sys.tx
    where
      started :
          (tx : ℕ) (r : Env types × End types Any)
          → Ensures (insert_started c sys.next_id tx sys r).1 (Took sys.next_id)
      started tx (env', unwound _ m) = tt
      started tx (env', finished a _) = (refl, refl)

      go : (o : Option ℕ) → Ensures (spawn_on c o actor sys env).1 (Took sys.next_id)
      go none = tt
      go (some tx) = started tx (exec c (c.started actor) (new sys.next_id) env)

  Kept-cons :
      (kinds : ℕ → Kind) (given : List (Addr types)) (addr : Addr types) (next next' : ℕ)
      → Kept kinds given next
      → addr.actor_id ≡ next
      → next' ≡ (next + 1) % 2 ^ 64
      → next + 1 < 2 ^ 64
      → Kept (assign addr.actor_id addr.kind kinds) (addr ∷ given) next'
  unfolding assign Given
  Kept-cons kinds given addr next next' h same e lt a (inl is) = rw is (ground arith, omega arith)
  Kept-cons kinds given addr next next' h same e lt a (inr old) =
      let k = h a old in (ground (arith, k), omega (arith, k))

  Life-Kept :
      (kinds : ℕ → Kind) (given : List (Addr types)) (sys : ActorSystem types)
      → Life kinds given sys
      → Kept kinds given sys.next_id
  Life-Kept kinds given sys (begins _ channel) = unfold Given in λ addr h. absurd h
  Life-Kept kinds given sys (spawns k g s _ actor env env' addr l lt eq) =
      let t = Ensured (Took s.next_id) _ env' (sys, addr) eq (spawn-Took actor s env) in
      Kept-cons k g addr s.next_id sys.next_id (Life-Kept k g s l) (t.0) (t.1) lt
  Life-Kept kinds given sys (serves _ _ s _ e env env' l eq) =
      let same = Ensured (Same s) _ env' sys eq (dispatch-Same c e s env) in
      subst (Kept kinds given) (sym (same.3)) (Life-Kept kinds given s l)
  Life-Kept kinds given sys (removes _ _ s _ a env env' l eq) =
      let same = Ensured (Same s) _ env' sys eq (remove_actor-Same c a s env) in
      subst (Kept kinds given) (sym (same.3)) (Life-Kept kinds given s l)

  dispatch_as-same :
      (d : Dispatch types) (actor : Any) (ctx : Context) (env : Env types)
      (x : Dec (c.type_of actor ≡ d.kind))
      → c.type_of actor ≡ d.kind
      → dispatch_as c d actor ctx env x
        ≡ finish_handle c d.reply (exec c (c.handle actor d.msg) ctx env)
  unfolding dispatch_as
  dispatch_as-same d actor ctx env (yes _) h = refl
  dispatch_as-same d actor ctx env (no f) h = absurd (f h)

  -- Where handlers leave their actors of the same type: after any spawns, dispatches and removals of a
  -- new system, below 2^64 identifiers, a message sent by any address that was ever given runs the
  -- handler of the actor that it finds, so that the cast of the closure does not fail; the actor and
  -- its `on_stop` have the type of the address.
  pub Life-casts :
      (kinds : ℕ → Kind) (given : List (Addr types)) (sys : ActorSystem types) (addr : Addr types)
      (e : Mail types) (cell : ActorCell types) (ctx : Context) (env : Env types)
      → Borrows
      → Life kinds given sys
      → Given addr given
      → e.actor_id ≡ addr.actor_id
      → e.dispatch.kind ≡ addr.kind
      → get sys.actors addr.actor_id ≡ some cell
      → (call_dispatch c e.dispatch cell.actor ctx env
          ≡ finish_handle c e.dispatch.reply (exec c (c.handle cell.actor e.dispatch.msg) ctx env))
        × (c.type_of cell.actor ≡ addr.kind)
        × (cell.on_stop ≡ addr.kind)
  unfolding call_dispatch
  Life-casts kinds given sys addr e cell ctx env b l was to k found =
      let typed =
        subst (CellTyped (kinds addr.actor_id)) found
          (Life-Typed kinds given sys b l addr.actor_id) in
      let kept = (Life-Kept kinds given sys l addr was).0 in
      (
        dispatch_as-same e.dispatch cell.actor ctx env _ (typed.0 ∙ kept ∙ sym k),
        typed.0 ∙ kept,
        typed.1 ∙ kept,
      )
