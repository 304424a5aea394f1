-- ===== src/Worker/Admission.antt =====
-- src/runtime.rs: what a worker does with the spawns that wait in its control channel.
use actinium_actor.Prelude.{
  ℕ, ◌<◌, ◌≡◌, refl, sym, ap, ◌∙◌, true, false, some, List, [], ◌∷◌, ◌++◌, append-nil, append_assoc,
  contains, contains-append, get_elem?-lt, get_elem?-set, length, length-set, arith,
}
use actinium_actor.HashMap.{HashMap, get, insert}
use actinium_actor.HashMap.Laws.{get-insert}
use actinium_actor.Outcome.{Outcome}
use actinium_actor.Actor.{Types, Code}
use actinium_actor.Actor.Store.{Mail, ActorCell, Env}
use actinium_actor.Worker.{
  Worker, ControlMsg, spawn_actor, shutdown, Next, actor_map, set_actor_map, controls, serve,
  iteration,
}
use actinium_actor.Worker.Run.{has_shutdown}

module _ {t : Types} where
  -- The actors of the spawns are in the worker's map.
  unfoldable pub admit : List (ControlMsg t) → Worker t → Env t → Env t
  admit [] w env = env
  admit (shutdown ∷ q) w env = env
  admit (spawn_actor id cell confirm ∷ q) w env =
      admit q (record w { confirmed = w.confirmed ++ confirm ∷ [] })
        (set_actor_map w (insert id cell (actor_map w env)) env)

  -- The confirmations that they wait for.
  unfoldable pub tokens : List (ControlMsg t) → List ℕ
  tokens [] = []
  tokens (shutdown ∷ q) = []
  tokens (spawn_actor id cell confirm ∷ q) = confirm ∷ tokens q

  -- The worker once all its control messages are taken.
  abbrev pub taken : Worker t → Worker t
  taken w = record w { control_rx = []; confirmed = w.confirmed ++ tokens w.control_rx }

  actor_map-set :
      (w : Worker t) (m : HashMap (ActorCell t)) (env : Env t)
      → w.worker_idx < length env.shared.actor_maps
      → actor_map w (set_actor_map w m env) ≡ m
  unfolding actor_map set_actor_map
  actor_map-set w m env lt =
      let (old, at) = get_elem?-lt env.shared.actor_maps w.worker_idx lt in
      rw (get_elem?-set env.shared.actor_maps w.worker_idx old m at) refl

  -- The identifiers of the spawns.
  unfoldable pub ids : List (ControlMsg t) → List ℕ
  ids [] = []
  ids (shutdown ∷ q) = []
  ids (spawn_actor id cell confirm ∷ q) = id ∷ ids q

  -- Spawns of other actors leave an actor in the map.
  admit-keeps :
      (q : List (ControlMsg t)) (id : ℕ) (cell : ActorCell t) (w : Worker t) (env : Env t)
      → contains (ids q) id ≡ false
      → w.worker_idx < length env.shared.actor_maps
      → get (actor_map w env) id ≡ some cell
      → get (actor_map w (admit q w env)) id ≡ some cell
  unfolding admit ids set_actor_map get actor_map
  admit-keeps [] id cell w env no_ lt h = h
  admit-keeps (shutdown ∷ q) id cell w env no_ lt h = h
  admit-keeps (spawn_actor id' cell' k' ∷ q) id cell w env no_ lt h =
      let m = insert id' cell' (actor_map w env) in
      admit-keeps q id cell (record w { confirmed = w.confirmed ++ k' ∷ [] })
        (set_actor_map w m env) (ground arith)
        (rw (length-set env.shared.actor_maps w.worker_idx m) lt)
        (rw (actor_map-set w m env lt)
          (ground (arith, get-insert id' cell' (actor_map w env) id, h)))

  -- A spawn behind others, and before spawns of other actors, is in the map that the worker goes on
  -- with.
  pub admit-among :
      (q more : List (ControlMsg t)) (id : ℕ) (cell : ActorCell t) (k : ℕ) (w : Worker t)
      (env : Env t)
      → has_shutdown q ≡ false
      → contains (ids more) id ≡ false
      → w.worker_idx < length env.shared.actor_maps
      → get (actor_map w (admit ((q ++ spawn_actor id cell k ∷ []) ++ more) w env)) id ≡ some cell
  unfolding admit has_shutdown set_actor_map get actor_map
  admit-among [] more id cell k w env no_ other lt =
      let m = insert id cell (actor_map w env) in
      admit-keeps more id cell (record w { confirmed = w.confirmed ++ k ∷ [] })
        (set_actor_map w m env) other (rw (length-set env.shared.actor_maps w.worker_idx m) lt)
        (rw (actor_map-set w m env lt) (ground (arith, get-insert id cell (actor_map w env) id)))
  admit-among (shutdown ∷ q) more id cell k w env no_ other lt = absurd cc
  admit-among (spawn_actor id' cell' k' ∷ q) more id cell k w env no_ other lt =
      let m = insert id' cell' (actor_map w env) in
      admit-among q more id cell k (record w { confirmed = w.confirmed ++ k' ∷ [] })
        (set_actor_map w m env) no_ other (rw (length-set env.shared.actor_maps w.worker_idx m) lt)

  tokens-among :
      (q more : List (ControlMsg t)) (id : ℕ) (cell : ActorCell t) (k : ℕ)
      → has_shutdown q ≡ false
      → tokens ((q ++ spawn_actor id cell k ∷ []) ++ more) ≡ tokens q ++ k ∷ tokens more
  unfolding tokens has_shutdown
  tokens-among [] more id cell k no_ = refl
  tokens-among (shutdown ∷ q) more id cell k no_ = absurd cc
  tokens-among (spawn_actor id' cell' k' ∷ q) more id cell k no_ =
      ap (λ l. k' ∷ l) (tokens-among q more id cell k no_)

  pub has_shutdown-among :
      (q more : List (ControlMsg t)) (id : ℕ) (cell : ActorCell t) (k : ℕ)
      → has_shutdown q ≡ false
      → has_shutdown more ≡ false
      → has_shutdown ((q ++ spawn_actor id cell k ∷ []) ++ more) ≡ false
  unfolding has_shutdown
  has_shutdown-among [] more id cell k no_ no' = no'
  has_shutdown-among (shutdown ∷ q) more id cell k no_ no' = absurd cc
  has_shutdown-among (spawn_actor id' cell' k' ∷ q) more id cell k no_ no' =
      has_shutdown-among q more id cell k no_ no'

  -- Its confirmation is sent.
  pub contains-tokens :
      (q more : List (ControlMsg t)) (id : ℕ) (cell : ActorCell t) (k : ℕ) (l : List ℕ)
      → has_shutdown q ≡ false
      → contains (l ++ tokens ((q ++ spawn_actor id cell k ∷ []) ++ more)) k ≡ true
  contains-tokens q more id cell k l no_ = ground (
    arith,
    tokens-among q more id cell k no_,
    contains-append l (tokens q ++ k ∷ tokens more) k,
    contains-append (tokens q) (k ∷ tokens more) k,
  )

module _ (c : Code) (order : List ℕ → List ℕ) where
  open c use {types}

  controls-admit :
      (next : Worker types → Env types → Env types × Outcome (Next types))
      (q : List (ControlMsg types)) (w : Worker types) (env : Env types)
      → has_shutdown q ≡ false
      → controls c order next q w env
        ≡ next (record w { control_rx = []; confirmed = w.confirmed ++ tokens q }) (admit q w env)
  unfolding controls admit tokens has_shutdown
  controls-admit next [] w env no_ =
      ap (λ l. next (record w { control_rx = []; confirmed = l }) env)
        (sym (append-nil w.confirmed))
  controls-admit next (shutdown ∷ q) w env no_ = absurd cc
  controls-admit next (spawn_actor id cell k ∷ q) w env no_ =
      let w' : Worker types = record w { confirmed = w.confirmed ++ k ∷ [] } in
      let env' = set_actor_map w (insert id cell (actor_map w env)) env in
      controls-admit next q w' env' no_
      ∙ ap (λ l. next (record w { control_rx = []; confirmed = l }) (admit q w' env'))
          (append_assoc w.confirmed (k ∷ []) (tokens q))

  -- Without a shutdown, an iteration is `serve` of the worker that has taken its control messages.
  pub iteration-admit :
      (late : List (Mail types)) (w : Worker types) (env : Env types)
      → has_shutdown w.control_rx ≡ false
      → iteration c order late w env ≡ serve c order late (taken w) (admit w.control_rx w env)
  unfolding iteration
  iteration-admit late w env no_ = controls-admit (serve c order late) w.control_rx w env no_
