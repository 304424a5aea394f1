-- ===== src/Console/Typed.antt =====
-- What is typed is what is done: commands with the number of an identifier.
use actinium_actor.Prelude.{
  ℕ, zero, suc, ◌+◌, ◌/◌, ◌%◌, ◌^◌, ◌<◌, ◌≡◌, refl, sym, subst, false, some, List, [], ◌∷◌, ◌++◌,
  ltb, Bool-cases, inl, inr, ◌==◌, arith,
}
use actinium_actor.HashMap.{HashMap, get}
use actinium_actor.ActorId.{display}
use actinium_actor.Text.{Text, text, show, digits, splitn, put_first}
use actinium_actor.Text.Decimal.{parse_u64-show}
use actinium_actor.Actor.Store.{Env, do_send}
use actinium_actor.Actor.Exec.{Context, End, finished, exec}
use actinium_actor.Console.{
  ManagedWorker, CommandActor, exec_input, AnyActor, Reply, command, worker_message, meta_command,
  destroy_worker, ok, types, Link, address,
}
use actinium_actor.Console.Command.{
  respond, notify_meta, stop_parsed, send_to, send_parsed, exec_stop, exec_send, to_lowercase,
  exec_verb, exec_parts, handle_console,
}
use actinium_actor.Console.Program.{program}

abbrev NoSpace : Text → Type 0
NoSpace [] = Unit {0}
NoSpace (c ∷ s) = ((c == b' ') ≡ false) × NoSpace s

-- The first of several pieces ends at the first space.
splitn-NoSpace :
    (n : ℕ) (p s : Text) → NoSpace p → splitn (suc (suc n)) (p ++ b' ' ∷ s) ≡ p ∷ splitn (suc n) s
unfolding splitn put_first
splitn-NoSpace n [] s h = refl
splitn-NoSpace n (c ∷ p) s h = rw (h.0, splitn-NoSpace n p s h.1)

splitn_whole : (n : ℕ) (p : Text) → NoSpace p → splitn (suc n) p ≡ p ∷ []
unfolding splitn put_first
splitn_whole zero p h = refl
splitn_whole (suc n) [] h = refl
splitn_whole (suc n) (c ∷ p) h = rw (h.0, splitn_whole (suc n) p h.1)

digits-NoSpace : (fuel n : ℕ) (after : Text) → NoSpace after → NoSpace (digits fuel n after)
unfolding digits
digits-NoSpace zero n after h = h
digits-NoSpace (suc fuel) n after h = elim (Bool-cases (ltb n 10)) [
  | inl small ↦ rw small (ground arith, h)
  | inr large ↦ rw large (digits-NoSpace fuel (n / 10) ((b'0' + n % 10) ∷ after) (ground arith, h))
]

splitn_last : (s : Text) → splitn 1 s ≡ s ∷ []
unfolding splitn
splitn_last s = refl

show-NoSpace : (n : ℕ) → NoSpace (show n)
unfolding show
show-NoSpace n = digits-NoSpace (suc n) n [] tt

verb_send : NoSpace (text "send")
verb_send = (refl, (refl, (refl, (refl, tt))))

verb_stop : NoSpace (text "stop")
verb_stop = (refl, (refl, (refl, (refl, tt))))

-- The message sent to the address of a worker, and the response that names it.
abbrev pub sent_result :
    ℕ
    → Text
    → ManagedWorker
    → CommandActor
    → Context
    → Env types
    → Env types × End types (AnyActor × Reply)
sent_result id msg m actor ctx env = (
  (do_send (address m.addr) (worker_message msg) env).0,
  finished
      (
        command (
            respond
              (text "Message sent directly to '" ++ m.name ++ text "' (" ++ display id ++ text ")")
              actor),
        ok (text "ok"),
      )
      ctx,
)

module _ (lower : ℕ → Text) (order : HashMap ManagedWorker → List (ℕ × ManagedWorker)) where
  -- `send`, the decimal digits of the number of a registered worker's identifier and any message, spaces
  -- included: the message is sent to the worker's own address, and the response names the worker.
  pub exec_input-send :
      (id : ℕ) (msg : Text) (m : ManagedWorker) (actor : CommandActor) (ctx : Context)
      (env : Env types)
      → id < 2 ^ 64
      → get env.world.registry id ≡ some m
      → exec
          (program lower order)
          (handle_console lower order actor (exec_input (text "send " ++ show id ++ b' ' ∷ msg)))
          ctx
          env
        ≡ sent_result id msg m actor ctx env
  unfolding handle_console exec_parts to_lowercase exec_verb exec_send send_parsed send_to exec
  exec_input-send id msg m actor ctx env lt found =
      rw (splitn-NoSpace 1 (text "send") (show id ++ b' ' ∷ msg) verb_send) (
        rw (splitn-NoSpace 0 (show id) msg (show-NoSpace id)) (
          rw (splitn_last msg, parse_u64-show id lt)
            (subst
              (λ o.
                exec (program lower order) (send_to id msg o actor) ctx env
                ≡ sent_result id msg m actor ctx env)
              (sym found) refl)))

  -- `stop` and the decimal digits of an identifier's number: the meta actor is told to destroy the worker
  -- of that number.
  pub exec_input-stop :
      (id : ℕ) (l : Link) (actor : CommandActor) (ctx : Context) (env : Env types)
      → id < 2 ^ 64
      → actor.meta ≡ some l
      → exec
          (program lower order)
          (handle_console lower order actor (exec_input (text "stop " ++ show id)))
          ctx
          env
        ≡ (
          (do_send (address l) (meta_command (destroy_worker id)) env).0,
          finished (command actor, ok (text "ok")) ctx,
        )
  unfolding handle_console exec_parts to_lowercase exec_verb exec_stop stop_parsed notify_meta exec
  exec_input-stop id l actor ctx env lt known =
      rw (splitn-NoSpace 1 (text "stop") (show id) verb_stop) (
        rw (splitn_whole 1 (show id) (show-NoSpace id)) (rw (parse_u64-show id lt) (rw known refl)))
