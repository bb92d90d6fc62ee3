-- ===== src/Redis.antt =====
-- internal/infrastructure/persistence/redis and internal/infrastructure/bloom.
pub mod Server
pub mod Client
pub mod Keys
pub mod BloomFilter
pub mod Scripts
pub mod Cache
pub mod Limits
pub mod Counters
pub mod Codes
pub mod Lock
pub mod Memory
mod Tests
