-- ===== src/Channel.antt =====
-- openwhisk/schedulerChannel.go: the HTTP channel to the scheduler. Recorder is the trace of one
-- call, Address the cached address and the dialing, Paused the blocking call of a pause,
-- Delivery the retried posts, which openwhisk/pushgateway.go makes too.
pub mod Recorder
pub mod Address
pub mod Dialing
pub mod Paused
pub mod Delivery
