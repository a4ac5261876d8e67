-- ===== src/Peers.antt =====
-- p2p/peer: the table of the peers that a node knows.
pub mod State
pub mod Table
pub mod Maps
pub mod Keeping
pub mod Choice
pub mod Seeds
mod Tests
