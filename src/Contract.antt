-- ===== src/Contract.antt =====
-- Where the servers meet: the sold-out key, and the replies that their filters give.
pub mod Replies
pub mod SoldOut
pub mod Reports
pub mod Lookup
pub mod Acceptance
pub mod Redeeming
