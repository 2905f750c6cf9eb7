-- ===== src/State.antt =====
-- pdo::state, the block-structured key-value store of a contract (common/state).
pub mod Offset
pub mod DataNode
pub mod Sebio
pub mod FreeSpace
pub mod StateNode
pub mod Cache
pub mod DataNodeIo
pub mod Trie
pub mod StateKv
pub mod KeyValue
