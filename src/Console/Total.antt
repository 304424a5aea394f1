-- ===== src/Console/Total.antt =====
-- The command actor survives whatever is typed.
use actinium_actor.Prelude.{
  ℕ, zero, suc, ◌≡◌, refl, Bool, true, false, Option, none, some, List, [], ◌∷◌, if◌then◌else◌,
  Bool-cases, inl, inr, ◌==◌,
}
use actinium_actor.HashMap.{HashMap, get}
use actinium_actor.Text.{Text, text, same, splitn, put_first, parse_u64}
use actinium_actor.Actor.{Script}
use actinium_actor.Actor.Store.{Env}
use actinium_actor.Actor.Exec.{Context, End, finished, exec}
use actinium_actor.Console.{
  ManagedWorker, CommandActor, exec_input, AnyActor, command, AnyMessage, Reply, ok, types, Link,
}
use actinium_actor.Console.Command.{
  notify_meta, stop_parsed, send_to, send_parsed, exec_spawn, exec_stop, exec_send, to_lowercase,
  exec_verb, exec_parts, handle_console,
}
use actinium_actor.Console.Program.{program}

-- The handler returned "ok" and a command actor, and did not stop it.
abbrev pub Executed : Context → End types (AnyActor × Reply) → Type 0
Executed ctx (finished (command actor, ok s) ctx') = (s ≡ text "ok") × (ctx' ≡ ctx)
Executed ctx _ = ⊥

put_first-cons :
    (c : ℕ) (ps : List Text) → (q : Text) × (qs : List Text) × (put_first c ps ≡ q ∷ qs)
unfolding put_first
put_first-cons c [] = (c ∷ [], [], refl)
put_first-cons c (p ∷ ps) = (c ∷ p, ps, refl)

-- There always is a first piece.
splitn-cons : (n : ℕ) (s : Text) → (p : Text) × (ps : List Text) × (splitn (suc n) s ≡ p ∷ ps)
unfolding splitn
splitn-cons zero s = (s, [], refl)
splitn-cons (suc n) [] = ([], [], refl)
splitn-cons (suc n) (c ∷ s) = elim (Bool-cases (c == b' ')) [
  | inl space ↦ ([], splitn (suc n) s, rw space)
  | inr other ↦ let (q, qs, e) = put_first-cons c (splitn (suc (suc n)) s) in (q, qs, rw other e)
]

module _ (lower : ℕ → Text) (order : HashMap ManagedWorker → List (ℕ × ManagedWorker)) where
  abbrev Runs : Script types (AnyActor × Reply) → Type 0
  Runs s = (ctx : Context) (env : Env types) → Executed ctx (exec (program lower order) s ctx env).1

  notify_meta-Runs :
      (m : Option Link) (msg : AnyMessage) (actor : CommandActor) → Runs (notify_meta m msg actor)
  unfolding notify_meta exec
  notify_meta-Runs none msg actor ctx env = (refl, refl)
  notify_meta-Runs (some l) msg actor ctx env = (refl, refl)

  exec_spawn-Runs : (parts : List Text) (actor : CommandActor) → Runs (exec_spawn parts actor)
  unfolding exec_spawn exec
  exec_spawn-Runs [] actor ctx env = (refl, refl)
  exec_spawn-Runs (verb ∷ []) actor ctx env = (refl, refl)
  exec_spawn-Runs (verb ∷ [] ∷ more) actor ctx env = (refl, refl)
  exec_spawn-Runs (verb ∷ (c ∷ name) ∷ more) actor ctx env =
      notify_meta-Runs actor.meta _ actor ctx env

  stop_parsed-Runs : (o : Option ℕ) (actor : CommandActor) → Runs (stop_parsed o actor)
  unfolding stop_parsed exec
  stop_parsed-Runs none actor ctx env = (refl, refl)
  stop_parsed-Runs (some id) actor ctx env = notify_meta-Runs actor.meta _ actor ctx env

  exec_stop-Runs : (parts : List Text) (actor : CommandActor) → Runs (exec_stop parts actor)
  unfolding exec_stop exec
  exec_stop-Runs [] actor ctx env = (refl, refl)
  exec_stop-Runs (verb ∷ []) actor ctx env = (refl, refl)
  exec_stop-Runs (verb ∷ raw ∷ more) actor ctx env = stop_parsed-Runs (parse_u64 raw) actor ctx env

  send_to-Runs :
      (id : ℕ) (msg : Text) (o : Option ManagedWorker) (actor : CommandActor)
      → Runs (send_to id msg o actor)
  unfolding send_to exec
  send_to-Runs id msg none actor ctx env = (refl, refl)
  send_to-Runs id msg (some w) actor ctx env = (refl, refl)

  send_parsed-Runs :
      (o : Option ℕ) (msg : Text) (actor : CommandActor) → Runs (send_parsed o msg actor)
  unfolding send_parsed exec
  send_parsed-Runs none msg actor ctx env = (refl, refl)
  send_parsed-Runs (some id) msg actor ctx env =
      send_to-Runs id msg (get env.world.registry id) actor ctx env

  exec_send-Runs : (parts : List Text) (actor : CommandActor) → Runs (exec_send parts actor)
  unfolding exec_send exec
  exec_send-Runs [] actor ctx env = (refl, refl)
  exec_send-Runs (verb ∷ []) actor ctx env = (refl, refl)
  exec_send-Runs (verb ∷ raw ∷ []) actor ctx env = (refl, refl)
  exec_send-Runs (verb ∷ raw ∷ msg ∷ more) actor ctx env =
      send_parsed-Runs (parse_u64 raw) msg actor ctx env

  if-Runs :
      (b : Bool) (s t : Script types (AnyActor × Reply))
      → Runs s
      → Runs t
      → Runs (if b then s else t)
  if-Runs true s t hs ht = hs
  if-Runs false s t hs ht = ht

  exec_verb-Runs :
      (verb : Text) (parts : List Text) (actor : CommandActor)
      → Runs (exec_verb lower order verb parts actor)
  unfolding exec_verb exec
  exec_verb-Runs verb parts actor =
      if-Runs (same verb (text "help")) _ _ (λ ctx env. (refl, refl))
        (if-Runs (same verb (text "spawn")) _ _ (exec_spawn-Runs parts actor) (
          if-Runs (same verb (text "stop")) _ _ (exec_stop-Runs parts actor) (
            if-Runs (same verb (text "send")) _ _ (exec_send-Runs parts actor) (
              if-Runs (same verb (text "status")) _ _ (λ ctx env. (refl, refl))
                (if-Runs (same verb (text "list")) _ _ (λ ctx env. (refl, refl))
                  (λ ctx env. (refl, refl)))))))

  -- Whatever is typed, the command actor answers "ok" and goes on: it does not panic, and it does not
  -- stop.
  pub handle_console-Executed :
      (actor : CommandActor) (input : Text) (ctx : Context) (env : Env types)
      → Executed ctx
          (exec
            (program lower order)
            (handle_console lower order actor (exec_input input))
            ctx
            env).1
  unfolding handle_console exec_parts
  handle_console-Executed actor input ctx env =
      let (p, ps, e) = splitn-cons 2 input in
      rw e (exec_verb-Runs (to_lowercase lower order p) (p ∷ ps) actor ctx env)
