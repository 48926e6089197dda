-- ===== src/ServerB.antt =====
-- apps/server-b/src: acceptance, the pending store's port and its implementation on Redis, the
-- scheduler, the result consumer and the client of server-c.
pub mod Filter
pub mod Pending
pub mod Publisher
pub mod Accept
pub mod Scheduler
pub mod Results
pub mod Client
pub mod Controller
pub mod Keys
pub mod Redis
pub mod RedisStore
