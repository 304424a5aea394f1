-- ===== src/Examples.antt =====
-- The theorems at concrete inputs.
mod Scheduling
mod Supervision
mod Systems
mod Machines
mod Workers
mod Demos
mod Consoles
mod Probing
mod Ends
mod Threads
mod Types
