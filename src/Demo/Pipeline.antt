-- ===== src/Demo/Pipeline.antt =====
-- examples/state_machine.rs: a pipeline of four stages over the documents that come.
use actinium_actor.Prelude.{
  ℕ, zero, suc, ◌+◌, ◌/◌, ◌%◌, ◌^◌, ◌<◌, ◌≡◌, refl, Bool, true, false, not, ◌&&◌, List, [], ◌∷◌,
  ◌++◌, length, arith, get_elem?, if◌then◌else◌, ◌==◌, Bool-cases, inl, inr,
}
use actinium_actor.Outcome.{Outcome, returned, Returns, Returns->>=}
use actinium_actor.Text.{Text, text, show}
use actinium_actor.StateMachine.{StateHandler, StateMachine}
use actinium_actor.StateMachine.Cycle.{Valid, handle_all, cycle, in_state, handle_all-cycle}

pub data DocState : Type 0 where
  receive validate process archive : DocState

pub record Document : Type 0 where
  pub id : ℕ
  pub content : Text

-- The counts are `usize`s.
pub record PipelineActor : Type 0 where
  pub processed : ℕ
  pub validated : ℕ

abbrev pub is_empty : Text → Bool
is_empty [] = true
is_empty (c ∷ s) = false

abbrev pub accepted : Document → Text
accepted msg =
    text "[Receive]  Accepted document #" ++ show msg.id ++ text ": \"" ++ msg.content ++ text "\""

-- The branches of state `validate`.
abbrev pub validation : Bool → Document → PipelineActor → PipelineActor × Text
validation true msg actor = (
  record actor { validated = (actor.validated + 1) % 2 ^ 64 },
  text "[Validate] Document #"
      ++ show msg.id
      ++ text " is valid (total valid: "
      ++ show ((actor.validated + 1) % 2 ^ 64)
      ++ text ")",
)
validation false msg actor =
    (actor, text "[Validate] Document #" ++ show msg.id ++ text " is INVALID")

unfoldable pub handle_in_state :
    {C : Type 0} → ℕ → DocState → Document → PipelineActor → C → Outcome (PipelineActor × Text × C)
handle_in_state idx receive msg actor ctx = returned (actor, accepted msg, ctx)
handle_in_state idx validate msg actor ctx =
    let (actor', result) = validation (not (is_empty msg.content)) msg actor in
    returned (actor', result, ctx)
handle_in_state idx process msg actor ctx = returned (
  record actor { processed = (actor.processed + 1) % 2 ^ 64 },
  text "[Process]  Processing document #"
      ++ show msg.id
      ++ text " (state idx: "
      ++ show idx
      ++ text ")...",
  ctx,
)
handle_in_state idx archive msg actor ctx = returned (
  actor,
  text "[Archive]  Document #"
      ++ show msg.id
      ++ text " archived (total done: "
      ++ show actor.processed
      ++ text ")",
  ctx,
)

abbrev pub pipeline : {C : Type 0} → StateHandler PipelineActor Document DocState Text C
pipeline = record {
  initial_state = receive;
  state_sequence = receive ∷ validate ∷ process ∷ archive ∷ [];
  handle_in_state = handle_in_state;
  started = λ actor ctx. returned (actor, ctx);
  stopped = λ actor ctx. returned (actor, ctx);
}

-- Of the documents from number `n` on, those that come to state `validate` with a content.
unfoldable pub valid_from : ℕ → List Document → ℕ
valid_from n [] = 0
valid_from n (d ∷ ds) =
    let rest = valid_from (n + 1) ds in
    if n % 4 == 1 && not (is_empty d.content) then suc rest else rest

-- What a stage does to the two counts.
record Counts (n : ℕ) (d : Document) (before after : PipelineActor) : Type 0 where
  pub processed : after.processed ≡ (if n % 4 == 2 then suc before.processed else before.processed)
  pub validated :
      after.validated
      ≡ (if n % 4 == 1 && not (is_empty d.content) then suc before.validated else before.validated)

-- What the documents from number `n` on come to.
pub record Processed (n : ℕ) (ds : List Document) (before after : PipelineActor)
    (replies : List Text) : Type 0 where
  pub processed : after.processed + (n + 1) / 4 ≡ before.processed + (n + length ds + 1) / 4
  pub validated : after.validated ≡ before.validated + valid_from n ds
  pub answered : length replies ≡ length ds

Processed-cons :
    (n : ℕ) (d : Document) (ds : List Document) (a b z : PipelineActor) (r : Text) (rs : List Text)
    → Counts n d a b
    → Processed (n + 1) ds b z rs
    → Processed n (d ∷ ds) a z (r ∷ rs)
unfolding valid_from
Processed-cons n d ds a b z r rs k p = record {
  processed = ground (arith, k.processed, p.processed);
  validated = ground (arith, k.validated, p.validated);
  answered = omega (arith, p.answered);
}

module _ {C : Type 0} where
  in_state-Counts :
      (i n : ℕ) (d : Document) (actor : PipelineActor) (ctx : C)
      → i ≡ n % 4
      → actor.processed + 1 < 2 ^ 64
      → actor.validated + 1 < 2 ^ 64
      → Returns
          (in_state
            (pipeline {C = C})
            (get_elem? (pipeline {C = C}).state_sequence i)
            i
            d
            actor
            ctx)
          (λ x. Counts n d actor x.0)
  unfolding in_state handle_in_state
  in_state-Counts zero n d actor ctx e p v = record {
    processed = ground arith;
    validated = ground arith;
  }
  in_state-Counts (suc zero) n d actor ctx e p v = elim (Bool-cases (is_empty d.content)) [
    | inl blank ↦ rw blank (record { processed = ground arith; validated = ground arith })
    | inr filled ↦ rw filled (record { processed = ground arith; validated = ground arith })
  ]
  in_state-Counts (suc (suc zero)) n d actor ctx e p v = record {
    processed = ground arith;
    validated = ground arith;
  }
  in_state-Counts (suc (suc (suc zero))) n d actor ctx e p v = record {
    processed = ground arith;
    validated = ground arith;
  }
  in_state-Counts (suc (suc (suc (suc i)))) n d actor ctx e p v = absurd (omega arith)

  cycle-Processed :
      (ds : List Document) (n : ℕ) (actor : PipelineActor) (ctx : C)
      → actor.processed + length ds < 2 ^ 64
      → actor.validated + length ds < 2 ^ 64
      → Returns (cycle (pipeline {C = C}) n ds actor ctx) (λ x. Processed n ds actor x.0 x.1)
  unfolding cycle valid_from
  cycle-Processed [] n actor ctx p v = record {
    processed = omega arith;
    validated = omega arith;
    answered = refl;
  }
  cycle-Processed (d ∷ ds) n actor ctx p v =
      Returns->>=
        (in_state (pipeline {C = C}) (get_elem? (pipeline {C = C}).state_sequence (n % 4)) (n % 4) d
          actor ctx)
        (λ x. Counts n d actor x.0) _ _
        (in_state-Counts (n % 4) n d actor ctx refl (omega (arith, p)) (omega (arith, v)))
        (λ x k.
          Returns->>= (cycle (pipeline {C = C}) (n + 1) ds x.0 x.2)
            (λ y. Processed (n + 1) ds x.0 y.0 y.1) _ _
            (cycle-Processed ds (n + 1) x.0 x.2 (ground (arith, k.processed, p))
              (ground (arith, k.validated, v)))
            (λ y q. Processed-cons n d ds actor x.0 y.0 x.1 y.1 k q))

  -- Any documents given to a machine at the start of the pipeline, whose counts cannot come to 2^64 with
  -- them, are all answered, without a panic:
  -- every fourth one, from the third on, is processed, and of every fourth one, from the second on,
  -- those with a content are counted as valid.
  pub handle_all-Processed :
      (ds : List Document) (sm : StateMachine PipelineActor DocState) (ctx : C)
      → Valid (pipeline {C = C}) sm
      → sm.current ≡ 0
      → sm.inner.processed + length ds < 2 ^ 64
      → sm.inner.validated + length ds < 2 ^ 64
      → Returns (handle_all pipeline ds sm ctx) (λ x.
        (x.0.inner.processed ≡ sm.inner.processed + (length ds + 1) / 4)
        × (x.0.inner.validated ≡ sm.inner.validated + valid_from 0 ds)
        × (length x.1 ≡ length ds))
  handle_all-Processed ds sm ctx v e p q =
      rw (handle_all-cycle (pipeline {C = C}) ds 0 sm ctx v e) (
        Returns->>= (cycle (pipeline {C = C}) 0 ds sm.inner ctx)
          (λ x. Processed 0 ds sm.inner x.0 x.1) _ _ (cycle-Processed ds 0 sm.inner ctx p q)
          (λ x r. (omega (arith, r.processed), r.validated, r.answered)))
