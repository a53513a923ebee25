-- ===== src/Pagestore.antt =====
-- internal/pagestore: a file of pages with a meta page, a free list and checkpoints.
pub mod Types
pub mod Format
pub mod Ops
pub mod Checkpoint
pub mod Verify
pub mod Load
pub mod Sound
pub mod Run
pub mod Create
mod Tests
