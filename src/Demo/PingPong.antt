-- ===== src/Demo/PingPong.antt =====
-- examples/ping_pong.rs: a player that answers in turn.
use actinium_actor.Prelude.{
  ℕ, zero, suc, ◌+◌, ◌%◌, ◌≡◌, refl, List, [], ◌∷◌, ◌++◌, length, some, arith, get_elem?, ap, ◌∙◌,
  ◌<◌, ◌==◌, if◌then◌else◌,
}
use actinium_actor.Outcome.{Outcome, returned}
use actinium_actor.Text.{Text, text, show}
use actinium_actor.StateMachine.{StateHandler, StateMachine}
use actinium_actor.StateMachine.Cycle.{Valid, handle_all, at_index}
use actinium_actor.StateMachine.Replies.{Answers, replies, handle_all-replies}

pub data RallyState : Type 0 where
  ping pong : RallyState

pub record Rally : Type 0 where
  pub player : Text
  pub round : ℕ

pub record RallyActor : Type 0 where
  pub name : Text

abbrev line : Text → ℕ → Rally → RallyActor → Text
line word idx msg actor =
    text "["
    ++ actor.name
    ++ text "] "
    ++ word
    ++ text "  ← round "
    ++ show msg.round
    ++ text " from "
    ++ msg.player
    ++ text " (state "
    ++ show idx
    ++ text ")"

unfoldable pub handle_in_state :
    {C : Type 0} → ℕ → RallyState → Rally → RallyActor → C → Outcome (RallyActor × Text × C)
handle_in_state idx ping msg actor ctx = returned (actor, line (text "PING") idx msg actor, ctx)
handle_in_state idx pong msg actor ctx = returned (actor, line (text "PONG") idx msg actor, ctx)

abbrev pub rally : {C : Type 0} → StateHandler RallyActor Rally RallyState Text C
rally = record {
  initial_state = ping;
  state_sequence = ping ∷ pong ∷ [];
  handle_in_state = handle_in_state;
  started = λ actor ctx. returned (actor, ctx);
  stopped = λ actor ctx. returned (actor, ctx);
}

-- The replies to messages from number `n` on: PING to even numbers, PONG to odd ones.
unfoldable pub volley : ℕ → List Rally → RallyActor → List Text
volley n [] actor = []
volley n (msg ∷ msgs) actor =
    let reply =
      if n % 2 == 0 then line (text "PING") 0 msg actor else line (text "PONG") 1 msg actor in
    reply ∷ volley (n + 1) msgs actor

turn_of : ℕ → RallyState
turn_of zero = ping
turn_of (suc i) = pong

answer : ℕ → Rally → RallyActor → Text
answer zero msg actor = line (text "PING") 0 msg actor
answer (suc i) msg actor = line (text "PONG") 1 msg actor

rally-states : (i : ℕ) → i < 2 → get_elem? (ping ∷ pong ∷ []) i ≡ some (turn_of i)
unfolding turn_of
rally-states zero lt = refl
rally-states (suc zero) lt = refl
rally-states (suc (suc i)) lt = absurd (omega arith)

answer-parity :
    (n : ℕ) (msg : Rally) (actor : RallyActor)
    → answer (n % 2) msg actor
      ≡ (if n % 2 == 0 then line (text "PING") 0 msg actor else line (text "PONG") 1 msg actor)
unfolding answer
answer-parity n msg actor = go (n % 2) (omega arith)
  where
    go :
        (i : ℕ)
        → i < 2
        → answer i msg actor
          ≡ (if i == 0 then line (text "PING") 0 msg actor else line (text "PONG") 1 msg actor)
    go zero lt = refl
    go (suc zero) lt = refl
    go (suc (suc i)) lt = absurd (omega arith)

module _ {C : Type 0} where
  rally_answers :
      (i : ℕ) (msg : Rally) (actor : RallyActor) (ctx : C)
      → i < 2
      → handle_in_state i (turn_of i) msg actor ctx ≡ returned (actor, answer i msg actor, ctx)
  unfolding handle_in_state turn_of answer
  rally_answers zero msg actor ctx lt = refl
  rally_answers (suc zero) msg actor ctx lt = refl
  rally_answers (suc (suc i)) msg actor ctx lt = absurd (omega arith)

  rally-Answers : Answers (rally {C = C})
  rally-Answers = record {
    state_at = turn_of;
    reply = λ i msg actor ctx. answer i msg actor;
    states = λ i lt. rally-states i lt;
    answers = rally_answers;
  }

  replies-volley :
      (msgs : List Rally) (n : ℕ) (actor : RallyActor) (ctx : C)
      → replies rally rally-Answers n msgs actor ctx ≡ volley n msgs actor
  unfolding replies volley rally-Answers
  replies-volley [] n actor ctx = refl
  replies-volley (msg ∷ msgs) n actor ctx =
      rw (answer-parity n msg actor, replies-volley msgs (n + 1) actor ctx)

  -- A player that starts at PING answers any messages, PING and PONG in turn, and never panics; it
  -- then stands in the state of the next message.
  pub handle_all-volley :
      (msgs : List Rally) (sm : StateMachine RallyActor RallyState) (ctx : C)
      → Valid (rally {C = C}) sm
      → sm.current ≡ 0
      → handle_all rally msgs sm ctx
        ≡ returned (at_index rally (length msgs) sm (sm.inner, volley 0 msgs sm.inner, ctx))
  handle_all-volley msgs sm ctx v e =
      handle_all-replies rally rally-Answers msgs sm ctx v e
      ∙ ap (λ rs. returned (at_index (rally {C = C}) (length msgs) sm (sm.inner, rs, ctx)))
          (replies-volley msgs 0 sm.inner ctx)
