-- ===== src/Discover.antt =====
-- internal/discover: from files to layers and resources.
pub mod Glob
pub mod Collect
