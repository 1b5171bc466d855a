-- ===== src/Tests.antt =====
-- Runs of the model on concrete inputs, on the fixed-point machine.
mod Queue
mod Time
mod Values
mod Timers
mod Clocks
mod Dispatching
mod Patterns
mod Configuring
mod Json
mod Running
