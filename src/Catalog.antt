-- ===== src/Catalog.antt =====
-- backend/internal/catalog: artists, albums and tracks.
pub mod Domain
pub mod Tables
pub mod Repo
pub mod Service
pub mod Calls
pub mod Frame
pub mod Validity
pub mod Growth
pub mod Failure
pub mod Whole
pub mod Searching
mod Tests
