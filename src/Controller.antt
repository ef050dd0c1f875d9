-- ===== src/Controller.antt =====
-- src/delay-controller.cpp: the delay controller. `State` has its fields and queries, `Buffer` the
-- operations on the retained history, `Timestamps` the joining of encoder epochs, `Ingest` and
-- `Commands` the public calls.
pub mod State
pub mod Buffer
pub mod Timestamps
pub mod Ingest
pub mod Commands
pub mod Calls
pub mod Playback
pub mod Epochs
pub mod History
mod Tests
