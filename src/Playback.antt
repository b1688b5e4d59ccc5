-- ===== src/Playback.antt =====
-- backend/internal/playback: sessions and the URLs of their audio.
pub mod Domain
pub mod Resolver
pub mod Service
pub mod Calls
pub mod Frame
pub mod Ownership
pub mod Queue
mod Tests
