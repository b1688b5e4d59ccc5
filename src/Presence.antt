-- ===== src/Presence.antt =====
-- backend/internal/presence
pub mod Domain
pub mod World
pub mod Repo
pub mod GeoIndex
pub mod Settings
pub mod RateLimit
pub mod Nearby
pub mod Hub
mod Tests
mod HubTests
