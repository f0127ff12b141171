-- ===== src/Memory.antt =====
-- internal/storage/store/memory: the memory storage.
pub mod Paging
pub mod History
pub mod Uptime
pub mod Buckets
pub mod Sessions
pub mod Store
mod Examples
