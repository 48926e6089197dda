-- ===== src/Common/Statuses.antt =====
-- The statuses: libs/common/src/coupon/statuses.ts and the three domain/statuses.ts. Their texts are
-- read only by the wire formats, so each enumeration is a data type of its own.
use coupon_nestjs.Prelude.{Bool, true, false}

-- What server-b answers to server-a.
pub data IssueAcceptanceStatus : Type 0 where
  accepted duplicate sold_out internal_error : IssueAcceptanceStatus

-- What server-c reports to server-b.
pub data CouponIssueResultStatus : Type 0 where
  success sold_out failed : CouponIssueResultStatus

-- The request log of server-a.
pub data IssueRequestStatus : Type 0 where
  accepted duplicate sold_out rejected : IssueRequestStatus

-- The application in the Redis of server-b.
pub data IssuePendingStatus : Type 0 where
  pending success sold_out failed : IssuePendingStatus

-- `user_coupon.status` of server-c.
pub data UserCouponStatus : Type 0 where
  success sold_out failed used : UserCouponStatus

pub data EventStatus : Type 0 where
  created in_progress ended cancelled : EventStatus

pub data OutboxEventStatus : Type 0 where
  pending published : OutboxEventStatus

abbrev pub is_success : UserCouponStatus → Bool
is_success UserCouponStatus.success = true
is_success _ = false

abbrev pub is_in_progress : EventStatus → Bool
is_in_progress EventStatus.in_progress = true
is_in_progress _ = false

abbrev pub is_pending : OutboxEventStatus → Bool
is_pending OutboxEventStatus.pending = true
is_pending OutboxEventStatus.published = false
