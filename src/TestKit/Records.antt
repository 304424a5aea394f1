-- ===== src/TestKit/Records.antt =====
-- A probe records the messages that are dispatched to it.
use actinium_actor.Prelude.{
  ℕ, ◌≡◌, refl, sym, ap, ◌∙◌, Option, none, some, List, [], ◌∷◌, ◌++◌, append-nil, append_assoc,
  arith,
}
use actinium_actor.HashMap.{get, insert}
use actinium_actor.HashMap.Laws.{get-insert}
use actinium_actor.Outcome.{Outcome, returned, Returns}
use actinium_actor.Actor.{Code}
use actinium_actor.Actor.Store.{Mail, ActorCell, Env, send_reply}
use actinium_actor.Actor.Exec.{new, is_running, exec, finished}
use actinium_actor.System.{ActorSystem, dispatch, dispatch_to, after_handle, and_then}
use actinium_actor.System.Answers.{call_dispatch-finished}
use actinium_actor.TestKit.Probe.{Probes, probe_handle}

module _ (c : Code) where
  open c use {types}

  -- Several dispatches in a row.
  unfoldable pub dispatch_all :
      List (Mail types) → ActorSystem types → Env types → Env types × Outcome (ActorSystem types)
  dispatch_all [] sys env = (env, returned sys)
  dispatch_all (e ∷ q) sys env = and_then c (dispatch c e sys env) (dispatch_all q)

module _ (c : Code) (p : Probes c) (k a : ℕ) where
  open c use {types}

  abbrev probe_cell : c.Kind → ActorCell types
  probe_cell on_stop = record { actor = p.actor k; on_stop = on_stop }

  -- The messages of a list, which are for the probe.
  abbrev pub ForProbe : List (Mail types) → Type 0
  ForProbe [] = Unit {0}
  ForProbe (e ∷ q) = (e.actor_id ≡ a) × (e.dispatch.kind ≡ p.kind) × ForProbe q

  abbrev pub messages_of : List (Mail types) → List c.Msg
  messages_of [] = []
  messages_of (e ∷ q) = e.dispatch.msg ∷ messages_of q

  send_reply-world :
      (reply : Option ℕ) (v : c.Val) (env : Env types) → (send_reply reply v env).world ≡ env.world
  unfolding send_reply
  send_reply-world none v env = refl
  send_reply-world (some j) v env = refl

  abbrev recorded : c.Msg → Env types → Env types
  recorded msg env = record env {
    world = p.shelf.put k (p.shelf.vector env.world k ++ msg ∷ []) env.world;
  }

  dispatch-probe :
      (e : Mail types) (sys : ActorSystem types) (env : Env types) (on_stop : c.Kind)
      → e.actor_id ≡ a
      → e.dispatch.kind ≡ p.kind
      → get sys.actors a ≡ some (probe_cell on_stop)
      → dispatch c e sys env ≡ (
        send_reply e.dispatch.reply p.default (recorded e.dispatch.msg env),
        returned (record sys { actors = insert a (probe_cell on_stop) sys.actors }),
      )
  unfolding dispatch dispatch_to
  dispatch-probe e sys env on_stop here same found =
      rw
        (
          here,
          found,
          call_dispatch-finished c e.dispatch (p.actor k) (new a) env (p.type_of k ∙ sym same) ran,
        )
        (unfold after_handle is_running new in refl)
    where
      ran :
          exec c (c.handle (p.actor k) e.dispatch.msg) (new a) env
          ≡ (recorded e.dispatch.msg env, finished (p.actor k, p.default) (new a))
      ran = rw (p.handles k e.dispatch.msg) (unfold exec probe_handle in refl)

  vector-recorded :
      (reply : Option ℕ) (msg : c.Msg) (env : Env types)
      → p.shelf.vector (send_reply reply p.default (recorded msg env)).world k
        ≡ p.shelf.vector env.world k ++ msg ∷ []
  vector-recorded reply msg env =
      ap (λ w. p.shelf.vector w k) (send_reply-world reply p.default (recorded msg env))
      ∙ ground (arith, p.shelf.vector-put k k (p.shelf.vector env.world k ++ msg ∷ []) env.world)

  -- Any messages that are dispatched to a probe are recorded in their order, after those that it had;
  -- none of the dispatches panics, and the probe stays in the system.
  pub dispatch_all-records :
      (q : List (Mail types)) (sys : ActorSystem types) (env : Env types) (on_stop : c.Kind)
      → ForProbe q
      → get sys.actors a ≡ some (probe_cell on_stop)
      → (p.shelf.vector (dispatch_all c q sys env).0.world k
          ≡ p.shelf.vector env.world k ++ messages_of q)
        × Returns
            (dispatch_all c q sys env).1
            (λ sys'. get sys'.actors a ≡ some (probe_cell on_stop))
  unfolding dispatch_all
  dispatch_all-records [] sys env on_stop h found =
      (sym (append-nil (p.shelf.vector env.world k)), found)
  dispatch_all-records (e ∷ q) sys env on_stop (here, same, h) found =
      let sys' : ActorSystem types = record sys {
        actors = insert a (probe_cell on_stop) sys.actors;
      } in
      let env' = send_reply e.dispatch.reply p.default (recorded e.dispatch.msg env) in
      let there : get sys'.actors a ≡ some (probe_cell on_stop) =
        ground (arith, get-insert a (probe_cell on_stop) sys.actors a) in
      let (records, stays) = dispatch_all-records q sys' env' on_stop h there in
      rw (dispatch-probe e sys env on_stop here same found) (
        records
            ∙ ap (λ l. l ++ messages_of q) (vector-recorded e.dispatch.reply e.dispatch.msg env)
            ∙ append_assoc (p.shelf.vector env.world k) (e.dispatch.msg ∷ []) (messages_of q),
        stays,
      )
