-- ===== src/ServerA/Filter.antt =====
-- apps/server-a/src/api/filters/global-exception.filter.ts
use coupon_nestjs.Prelude.{Option, none, some}
use coupon_nestjs.Common.Errors.{invalid_state, Exception, common}
use coupon_nestjs.Common.Http.{ErrorCode}
use coupon_nestjs.Common.Filter.{
  MappedError, mapped, map_common_error, map_missing_header, or_option,
}

abbrev state_error : Exception → Option MappedError
state_error (common (invalid_state message)) = some (mapped 409 ErrorCode.invalid_state message)
state_error _ = none

unfoldable pub map_domain : Exception → Option MappedError
unfolding map_common_error map_missing_header
map_domain e = or_option (map_common_error e) (or_option (map_missing_header e) (state_error e))
