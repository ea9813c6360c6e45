-- ===== src/Resolve.antt =====
-- internal/resolve: from a repository and a host's name to an effective manifest.
pub mod Manifest
pub mod Merge
pub mod Substitute
pub mod Host
