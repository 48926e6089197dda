-- ===== src/ServerB/Filter.antt =====
-- apps/server-b/src/api/filters/global-exception.filter.ts: an invalid state is a server error here,
-- and a missing header has no mapping.
use coupon_nestjs.Prelude.{Option, none, some}
use coupon_nestjs.Common.Errors.{invalid_state, Exception, common}
use coupon_nestjs.Common.Http.{ErrorCode}
use coupon_nestjs.Common.Filter.{MappedError, mapped, map_common_error, or_option}

abbrev state_error : Exception → Option MappedError
state_error (common (invalid_state message)) = some (mapped 500 ErrorCode.internal_state message)
state_error _ = none

unfoldable pub map_domain : Exception → Option MappedError
unfolding map_common_error
map_domain e = or_option (map_common_error e) (state_error e)
