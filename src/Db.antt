-- ===== src/Db.antt =====
-- db: the blocks that left the tree, as keys and values of badger, which is a parameter.
pub mod Schema
pub mod Keys
pub mod Badger
pub mod Store
pub mod Queries
pub mod Writes
pub mod Held
pub mod Refinement
pub mod Putting
pub mod Fresh
pub mod Recorded
pub mod Ledger
pub mod Promise
pub mod Reading
pub mod Answering
pub mod Room
pub mod Success
pub mod Tests
