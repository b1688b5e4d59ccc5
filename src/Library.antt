-- ===== src/Library.antt =====
-- backend/internal/library: playlists and saved tracks.
pub mod Domain
pub mod Order
pub mod Repo
pub mod Service
pub mod Calls
pub mod Frame
pub mod Ownership
pub mod Positions
pub mod Saved
mod Examples
mod Tests
