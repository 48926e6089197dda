-- ===== src/ServerA.antt =====
-- apps/server-a/src: the entrance.
pub mod Filter
pub mod RequestLog
pub mod Issue
pub mod Client
