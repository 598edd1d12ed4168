-- ===== src/Segments.antt =====
-- openwhisk/energySegments.go: the energy of a step by segments of execution, as three pieces of
-- code compute it. Marks stands for freezeMarks, Settlement for segmentedAttribution, Meter for
-- stepMeter, and Tracking for the methods of Executor that drive a meter and the marks together.
pub mod Marks
pub mod Settlement
pub mod Meter
pub mod Tracking
pub mod Replay
pub mod Agreement
pub mod CpuTime
