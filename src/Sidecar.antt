-- ===== src/Sidecar.antt =====
-- openwhisk/energy_state.go: the sidecar that carries the energy state of a sequence from one step
-- to the next. Json is the data that encoding/json reads and writes, State the struct with its
-- decoding and encoding, Transfer the two functions that the handler of /run calls.
pub mod Json
pub mod State
pub mod Transfer
pub mod Stripping
pub mod RoundTrip
