-- ===== src/UnitTests.antt =====
-- The unit tests of the repository, run on the model. A failed assertion is a panic.
use actinium_actor.Prelude.{Bool, true, false}
use actinium_actor.Outcome.{Outcome, returned, panicked}
mod Scheduling
mod Stateful
mod Systems
mod Kits
mod Probing
mod Integration
mod Threads
mod Runs
mod Supervising

-- `assert!`
abbrev pub assert : Bool → Outcome (Unit {0})
assert true = returned tt
assert false = panicked "assertion failed"
