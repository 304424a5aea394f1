-- ===== src/Console/Command.antt =====
-- examples/console.rs: `CommandActor`, which carries out the commands that are typed.
use Prim.Native.String.{String}
use actinium_actor.Prelude.{
  ℕ, ◌+◌, Bool, true, false, ◌&&◌, Option, none, some, List, [], ◌∷◌, ◌++◌, map, length, ltb, leb,
  if◌then◌else◌,
}
use actinium_actor.HashMap.{HashMap, get}
use actinium_actor.ActorId.{display, from_raw}
use actinium_actor.Text.{Text, text, same, show, parse_u64, splitn, join}
use actinium_actor.Actor.{Script, done, panics, self_id, do_send, read, write}
use actinium_actor.Console.{
  ManagedWorker, CommandActor, CmdResponse, spawned, stopped, error, create_worker, destroy_worker,
  ConsoleCommand, exec_input, poll, set_meta, quit, World, AnyActor, AnyMessage, command,
  worker_message, meta_command, Reply, unit, ok, quitting, types, Link, address, push_log, info_of,
}

-- A hook of the command actor: an entry in the log.
abbrev pub logged : String → CommandActor → Script types AnyActor
logged what actor = self_id λ id. read λ w.
    write (push_log (text "[CommandActor] " ++ text what ++ text " (" ++ display id ++ text ")") w)
      (done (command actor))

abbrev pub command_started : CommandActor → Script types AnyActor
command_started actor = logged "started" actor

abbrev pub command_stopped : CommandActor → Script types AnyActor
command_stopped actor = logged "stopped" actor

abbrev pub describe : CmdResponse → Text
describe (spawned id name) = text "Spawned '" ++ name ++ text "' with ID " ++ display id
describe (stopped id name msg_count state) =
    text "Stopped '"
    ++ name
    ++ text "' ("
    ++ display id
    ++ text ") — "
    ++ show msg_count
    ++ text " msg(s), last state: "
    ++ state
describe (error e) = text "Error: " ++ e

abbrev pub respond : Text → CommandActor → CommandActor
respond s actor = record actor { last_response = some s }

unfoldable pub handle_response : CommandActor → CmdResponse → Script types (AnyActor × Reply)
handle_response actor msg = done (command (respond (describe msg) actor), unit)

-- The end of `Exec`.
abbrev pub executed : CommandActor → Script types (AnyActor × Reply)
executed actor = done (command actor, ok (text "ok"))

abbrev pub answer : Text → CommandActor → Script types (AnyActor × Reply)
answer s actor = executed (respond s actor)

-- `ctx.notify(meta, …)`, if there is a meta actor.
unfoldable pub notify_meta :
    Option Link → AnyMessage → CommandActor → Script types (AnyActor × Reply)
notify_meta none msg actor = executed actor
notify_meta (some meta) msg actor = do_send (address meta) msg (λ _. executed actor)

abbrev pub is_empty : Text → Bool
is_empty [] = true
is_empty (c ∷ s) = false

unfoldable pub exec_spawn : List Text → CommandActor → Script types (AnyActor × Reply)
unfolding notify_meta
exec_spawn (verb ∷ (c ∷ name) ∷ more) actor =
    notify_meta actor.meta (meta_command (create_worker (c ∷ name))) actor
exec_spawn _ actor = answer (text "Usage: spawn <name>") actor

unfoldable pub stop_parsed : Option ℕ → CommandActor → Script types (AnyActor × Reply)
unfolding notify_meta
stop_parsed none actor = answer (text "Invalid ID") actor
stop_parsed (some raw_id) actor =
    notify_meta actor.meta (meta_command (destroy_worker (from_raw raw_id))) actor

unfoldable pub exec_stop : List Text → CommandActor → Script types (AnyActor × Reply)
unfolding stop_parsed
exec_stop (verb ∷ raw ∷ more) actor = stop_parsed (parse_u64 raw) actor
exec_stop _ actor = answer (text "Usage: stop <id>") actor

unfoldable pub send_to :
    ℕ → Text → Option ManagedWorker → CommandActor → Script types (AnyActor × Reply)
send_to id msg none actor = answer (text "Worker " ++ display id ++ text " not found") actor
send_to id msg (some w) actor = do_send (address w.addr) (worker_message msg) λ _.
    answer (text "Message sent directly to '" ++ w.name ++ text "' (" ++ display id ++ text ")")
      actor

unfoldable pub send_parsed : Option ℕ → Text → CommandActor → Script types (AnyActor × Reply)
unfolding send_to
send_parsed none msg actor = answer (text "Invalid ID") actor
send_parsed (some raw_id) msg actor =
    read λ w. send_to (from_raw raw_id) msg (get w.registry (from_raw raw_id)) actor

unfoldable pub exec_send : List Text → CommandActor → Script types (AnyActor × Reply)
unfolding send_parsed
exec_send (verb ∷ raw ∷ msg ∷ more) actor = send_parsed (parse_u64 raw) msg actor
exec_send _ actor = answer (text "Usage: send <id> <msg>") actor

abbrev pub status_line : World → ℕ × ManagedWorker → Text
status_line w (id, m) =
    let info = info_of w m.info in
    text "  "
    ++ display id
    ++ text " '"
    ++ m.name
    ++ text "' — "
    ++ show info.msg_count
    ++ text " msg(s), state: "
    ++ info.current_state
    ++ text ", last: \""
    ++ info.last_msg
    ++ text "\""

-- The entries of the registry in the order in which the map happens to give them.
unfoldable pub status_of : World → List (ℕ × ManagedWorker) → Text
status_of w [] = text "No actors running."
status_of w (m ∷ ms) =
    show (length (m ∷ ms))
    ++ text " actor(s) running:\n"
    ++ join (text "\n") (map (status_line w) (m ∷ ms))

unfoldable pub list_of : List (ℕ × ManagedWorker) → Text
list_of [] = text "No actors."
list_of (m ∷ ms) =
    text "Actors: "
    ++ join (text ", ") (map (λ x. x.1.name ++ text " (" ++ display x.0 ++ text ")") (m ∷ ms))

-- `lower` is the lower case of a character beyond ASCII, and `order` the order in which the map of the
-- registry gives its entries.
module _ (lower : ℕ → Text) (order : HashMap ManagedWorker → List (ℕ × ManagedWorker)) where
  unfoldable pub to_lowercase : Text → Text
  to_lowercase [] = []
  to_lowercase (c ∷ s) =
      let rest = to_lowercase s in
      if leb b'A' c && leb c b'Z'
      then (c + 32) ∷ rest
      else if ltb c 128
      then c ∷ rest
      else lower c ++ rest

  unfoldable pub exec_verb : Text → List Text → CommandActor → Script types (AnyActor × Reply)
  unfolding exec_spawn exec_stop exec_send status_of list_of
  exec_verb verb parts actor =
      if same verb (text "help")
      then answer (text "spawn <name> | stop <id> | send <id> <msg> | status | list | help | quit")
          actor
      else if same verb (text "spawn")
      then exec_spawn parts actor
      else if same verb (text "stop")
      then exec_stop parts actor
      else if same verb (text "send")
      then exec_send parts actor
      else if same verb (text "status")
      then read (λ w. answer (status_of w (order w.registry)) actor)
      else if same verb (text "list")
      then read (λ w. answer (list_of (order w.registry)) actor)
      else answer (text "Unknown: '" ++ verb ++ text "'. Type 'help'.") actor

  unfoldable pub exec_parts : List Text → CommandActor → Script types (AnyActor × Reply)
  unfolding to_lowercase exec_verb
  exec_parts [] actor = panics (command actor) "index out of bounds"
  exec_parts (verb ∷ more) actor = exec_verb (to_lowercase verb) (verb ∷ more) actor

  unfoldable pub handle_console : CommandActor → ConsoleCommand → Script types (AnyActor × Reply)
  unfolding exec_parts
  handle_console actor (exec_input input) = exec_parts (splitn 3 input) actor
  handle_console actor poll = done (
    command (record actor { last_response = none }),
    ok (elim actor.last_response [ none ↦ [] | some s ↦ s ]),
  )
  handle_console actor (set_meta meta) =
      done (command (record actor { meta = some meta }), ok (text "meta set"))
  handle_console actor quit = done (command actor, quitting)
