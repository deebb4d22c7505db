-- ===== src/ThreadComm.antt =====
-- Communication between threads: src/thread/thread_comm_module.{h,c}.
pub mod Queue
pub mod Table
pub mod Threads
pub mod Messages
pub mod Management
pub mod Deadlock
pub mod Delivery
pub mod Mutexes
pub mod Lookup
pub mod Priority
mod Tests
