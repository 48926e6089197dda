-- ===== src/ServerC.antt =====
-- apps/server-c/src: issuing, redeeming, the outbox and the queries.
pub mod Filter
pub mod Schema
pub mod Domain
pub mod Engine
pub mod Repositories
pub mod SoldOut
pub mod World
pub mod Issue
pub mod Redeem
pub mod Events
pub mod Refresher
pub mod UserCoupons
pub mod Controllers
pub mod Poller
pub mod Consumer
pub mod System
