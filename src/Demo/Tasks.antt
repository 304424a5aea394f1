-- ===== src/Demo/Tasks.antt =====
-- examples/multi_thread.rs: a worker that goes through the stages of its tasks. The context gives
-- the name of the thread.
use actinium_actor.Prelude.{
  ℕ, zero, suc, ◌<◌, ◌≡◌, refl, ap, ◌∙◌, List, [], ◌∷◌, ◌++◌, some, arith, get_elem?,
}
use actinium_actor.Outcome.{Outcome, returned}
use actinium_actor.Text.{Text, text, show}
use actinium_actor.StateMachine.{StateHandler, StateMachine}
use actinium_actor.StateMachine.Cycle.{Valid, handle_all}
use actinium_actor.StateMachine.Replies.{Answers, replies, handle_all-replies}

pub data TaskState : Type 0 where
  receive execute report : TaskState

pub record Task : Type 0 where
  pub duration_ms : ℕ

pub record WorkerActor : Type 0 where
  pub id : ℕ

module _ {C : Type 0} (thread_id : C → Text) where
  abbrev reply : TaskState → Task → WorkerActor → C → Text
  reply receive msg actor ctx =
      text "[W-"
      ++ show actor.id
      ++ text "] RECEIVED task ("
      ++ show msg.duration_ms
      ++ text "ms) on "
      ++ thread_id ctx
  reply execute msg actor ctx = text "[W-" ++ show actor.id ++ text "] execution complete"
  reply report msg actor ctx =
      text "[W-" ++ show actor.id ++ text "] REPORTING done on " ++ thread_id ctx

  -- The thread sleeps in state `execute`; time does not pass in the model.
  unfoldable pub handle_in_state :
      ℕ → TaskState → Task → WorkerActor → C → Outcome (WorkerActor × Text × C)
  handle_in_state idx receive msg actor ctx = returned (actor, reply receive msg actor ctx, ctx)
  handle_in_state idx execute msg actor ctx = returned (actor, reply execute msg actor ctx, ctx)
  handle_in_state idx report msg actor ctx = returned (actor, reply report msg actor ctx, ctx)

  abbrev pub stages : StateHandler WorkerActor Task TaskState Text C
  stages = record {
    initial_state = receive;
    state_sequence = receive ∷ execute ∷ report ∷ [];
    handle_in_state = handle_in_state;
    started = λ actor ctx. returned (actor, ctx);
    stopped = λ actor ctx. returned (actor, ctx);
  }

-- The state of a position below 3.
stage : ℕ → TaskState
stage zero = receive
stage (suc zero) = execute
stage (suc (suc i)) = report

stages-stage : (i : ℕ) → i < 3 → get_elem? (receive ∷ execute ∷ report ∷ []) i ≡ some (stage i)
unfolding stage
stages-stage zero lt = refl
stages-stage (suc zero) lt = refl
stages-stage (suc (suc zero)) lt = refl
stages-stage (suc (suc (suc i))) lt = absurd (omega arith)

module _ {C : Type 0} (thread_id : C → Text) where
  stages_answer :
      (s : TaskState) (i : ℕ) (msg : Task) (actor : WorkerActor) (ctx : C)
      → handle_in_state thread_id i s msg actor ctx
        ≡ returned (actor, reply thread_id s msg actor ctx, ctx)
  unfolding handle_in_state
  stages_answer receive i msg actor ctx = refl
  stages_answer execute i msg actor ctx = refl
  stages_answer report i msg actor ctx = refl

  stages-Answers : Answers (stages thread_id)
  stages-Answers = record {
    state_at = stage;
    reply = λ i msg actor ctx. reply thread_id (stage i) msg actor ctx;
    states = stages-stage;
    answers = λ i msg actor ctx lt. stages_answer (stage i) i msg actor ctx;
  }

  -- What the worker says to three tasks of one round.
  abbrev pub round : Task → Task → Task → WorkerActor → C → List Text
  round a b d actor ctx =
      reply thread_id receive a actor ctx
      ∷ reply thread_id execute b actor ctx
      ∷ reply thread_id report d actor ctx
      ∷ []

  -- A worker at the start of a round answers three tasks as received, executed and reported, and is at
  -- the start of a round again.
  pub handle_all-round :
      (a b d : Task) (sm : StateMachine WorkerActor TaskState) (ctx : C)
      → Valid (stages thread_id) sm
      → sm.current ≡ 0
      → handle_all (stages thread_id) (a ∷ b ∷ d ∷ []) sm ctx
        ≡ returned (sm, round a b d sm.inner ctx, ctx)
  unfolding replies stages-Answers stage
  handle_all-round a b d sm ctx v e =
      handle_all-replies (stages thread_id) stages-Answers (a ∷ b ∷ d ∷ []) sm ctx v e
      ∙ ap (λ n. returned (record sm { current = n }, round a b d sm.inner ctx, ctx))
          (rw (v.sequence, e))
