-- ===== src/Objects.antt =====
-- The visible objects of the model: src/objects and include/mcmini/objects.
pub mod Tests
pub mod Fifo
pub mod RwLock
pub mod RwwLock
pub mod Thread
pub mod Mutex
pub mod Semaphore
pub mod Barrier
