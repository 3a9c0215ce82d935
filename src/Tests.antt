-- ===== src/Tests.antt =====
-- Theorems at concrete inputs, and runs of the model.
mod Samples
mod Conditions
mod Nodes
mod Rollout
mod Builds
mod Watcher
mod Merge
mod Drains
mod Updates
mod Rollbacks
mod Configs
mod Syncs
mod Operators
mod Disks
