-- ===== src/Controller/Playback.antt =====
-- What viewers get from the delay controller while it plays a delay and while it is live.
pub mod Release
pub mod Replay
pub mod Rewind
pub mod LiveGate
pub mod GoLive
pub mod Shorten
