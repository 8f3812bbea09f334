-- ===== src/Queue.antt =====
-- The queues of src/queue.rs.
pub mod SafeQueue
pub mod RingQueue
pub mod PointerCache
pub mod LinkQueue
mod Tests
