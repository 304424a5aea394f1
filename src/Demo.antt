-- ===== src/Demo.antt =====
-- The actors of the demonstration programs. What they print on the console is not modelled, nor are
-- their main programs, which only spawn the actors and send the messages.
pub mod PingPong
pub mod Tasks
pub mod Pipeline
pub mod Counter
