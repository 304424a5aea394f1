-- ===== src/Envelope.antt =====
-- src/envelope.rs: the message on its way to an actor.
use actinium_actor.Prelude.{ℕ}

-- `dispatch` is the type-erased closure; the scheduler and the channels never look into it.
pub record Envelope {ℓ} (D : Type ℓ) : Type ℓ where
  pub actor_id : ℕ
  pub dispatch : D
