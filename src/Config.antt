-- ===== src/Config.antt =====
-- The settings of the runtime from its environment: the positive numbers of openwhisk/cgroupFreezer.go
-- and openwhisk/pushgateway.go, the settings of openwhisk/schedulerChannel.go, the counter of the node, and the cgroups that were delegated.
pub mod Numbers
pub mod Rapl
pub mod Delegation
pub mod Attempted
pub mod Settings
pub mod Posted
