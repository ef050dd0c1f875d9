-- ===== src/Flv.antt =====
-- src/flv-muxer.hpp and src/flv-muxer.cpp: FLV tags. `Wire` writes them as bytes, `Avc` checks the
-- framing of video packets and `Muxer` turns packets into tags.
pub mod Tag
pub mod Wire
pub mod Avc
pub mod Muxer
mod Tests
