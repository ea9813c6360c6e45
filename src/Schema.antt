-- ===== src/Schema.antt =====
-- internal/schema: desired state is checked against the fields of its type.
pub mod Table
pub mod Checks
pub mod Rules
pub mod Validate
pub mod AbsPaths
pub mod Modes
pub mod Accepted
pub mod Targets
