-- ===== src/ActorId.antt =====
-- src/actor.rs: the identifiers of actors, 64-bit integers.
use actinium_actor.Prelude.{ℕ, ◌+◌, ◌%◌, ◌^◌, ◌<◌, ◌≡◌, ◌≢◌, ap, sym, ◌∙◌, ◌++◌}
use actinium_actor.Text.{Text, text, show, parse_u64}
use actinium_actor.Text.Decimal.{parse_u64-show}

abbrev pub from_raw : ℕ → ℕ
from_raw id = id

-- `ActorId::next`, from the counter: `fetch_add` returns the old value, and wraps.
unfoldable pub next : ℕ → ℕ × ℕ
next counter = (counter, (counter + 1) % 2 ^ 64)

-- `Display`
unfoldable pub display : ℕ → Text
display id = text "actor-" ++ show id

show_inj : (a b : ℕ) → a < 2 ^ 64 → b < 2 ^ 64 → show a ≡ show b → a ≡ b
show_inj a b la lb e =
    let p = sym (parse_u64-show a la) ∙ ap parse_u64 e ∙ parse_u64-show b lb in cc

-- Two different identifiers print differently.
pub display_ne : (a b : ℕ) → a < 2 ^ 64 → b < 2 ^ 64 → a ≢ b → display a ≢ display b
unfolding display
display_ne a b la lb n e = n (show_inj a b la lb (cc))
