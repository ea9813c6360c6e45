-- ===== src/Document.antt =====
-- internal/document: references, names, desired state as trees, and what a type manages.
pub mod Reference
pub mod Names
pub mod Value
pub mod Canonical
pub mod Identity
pub mod SafeText
pub mod Documents
