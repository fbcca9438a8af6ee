-- ===== src/Peer.antt =====
-- src/rosy/node/peer/: connections to other nodes, and the choice of a node.
pub mod Connection
pub mod Selector
pub mod Removal
