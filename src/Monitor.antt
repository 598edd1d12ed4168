-- ===== src/Monitor.antt =====
-- openwhisk/energyMonitor.go: the monitor of a step's energy. Classes decides which steps it
-- enforces on, Result is what it hands to Interact, Cycle one pause cycle, Loop the ticker's loop.
pub mod Classes
pub mod Result
pub mod Cycle
pub mod Loop
pub mod Authorized
pub mod Spared
pub mod Decided
pub mod Threshold
pub mod Tracked
pub mod Settled
pub mod Unkillable
pub mod Interact
pub mod Left
pub mod Kept
pub mod Abandoned
pub mod Crossed
pub mod Called
pub mod Driven
pub mod Hung
