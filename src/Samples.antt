-- ===== src/Samples.antt =====
-- Concrete manifests, hosts and passes, and the theorems applied to them.
mod Data
mod Graphs
mod Matching
mod Timing
mod Passes
mod Layers
mod Installs
mod Readings
mod Settings
mod Changes
mod Guards
mod Hosts
mod Repositories
mod Agents
mod Sources
