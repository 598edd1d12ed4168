-- ===== src/Examples.antt =====
-- Tests: each theorem that needs one is applied at a concrete input.
pub mod Fixtures
mod Controllers
mod Energies
mod Sequences
mod Channels
pub mod Monitors
mod Hanging
pub mod Runs
pub mod Proxies
mod Recordings
mod Services
mod Configs
mod Packed
mod Launched
mod Zipped
mod Compiled
