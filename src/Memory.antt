-- ===== src/Memory.antt =====
-- The memory pools: src/memory/memory_pool_module.{h,c}.
pub mod Pool
pub mod Service
pub mod Module
pub mod FreeList
pub mod Growth
pub mod Reuse
pub mod Requests
pub mod Returns
mod Tests
