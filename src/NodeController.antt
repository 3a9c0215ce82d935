-- ===== src/NodeController.antt =====
-- pkg/controller/node: the controller that moves the nodes of a pool to its configuration.
pub mod Status
pub mod Candidates
pub mod Pools
pub mod Sorting
pub mod Server
pub mod Sync
pub mod Masters
pub mod Events
