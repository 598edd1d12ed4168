-- ===== src/Freezer.antt =====
-- openwhisk/cgroupFreezer.go: the cgroup handle and the state machine of one activation.
-- A call's view of the kernel is an argument: whether the write succeeded, and what the
-- successive reads of cgroup.events gave until the deadline.
pub mod Cgroup
pub mod Machine
pub mod Invariant
pub mod Traces
pub mod Stuck
pub mod Stopping
pub mod Held
