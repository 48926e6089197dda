-- ===== src/Common.antt =====
-- libs/common/src: what the three servers share.
pub mod Errors
pub mod Text
pub mod Http
pub mod Filter
pub mod Statuses
pub mod Payloads
pub mod CouponCode
pub mod Cache
pub mod Broker
pub mod Publishing
pub mod LocalDateTime
pub mod Validation
pub mod BodyParser
pub mod Requests
pub mod Consuming
