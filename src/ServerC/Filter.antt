-- ===== src/ServerC/Filter.antt =====
-- apps/server-c/src/api/filters/global-exception.filter.ts: server-a's mapping, after those of the
-- domain errors.
use coupon_nestjs.Prelude.{Option, none, some}
use coupon_nestjs.Common.Errors.{
  invalid_state, coupon_not_found, event_not_found, optimistic_lock_failure, Exception, common,
  domain,
}
use coupon_nestjs.Common.Http.{
  ErrorCode, not_found_message, event_not_found_message, race_retry_message,
}
use coupon_nestjs.Common.Filter.{
  MappedError, mapped, map_common_error, map_missing_header, or_option,
}

abbrev domain_error : Exception → Option MappedError
domain_error (domain (coupon_not_found _)) = some (mapped 404 ErrorCode.not_found not_found_message)
domain_error (domain (event_not_found _)) =
    some (mapped 404 ErrorCode.event_not_found event_not_found_message)
domain_error (domain (optimistic_lock_failure _)) =
    some (mapped 409 ErrorCode.race_retry race_retry_message)
domain_error _ = none

abbrev state_error : Exception → Option MappedError
state_error (common (invalid_state message)) = some (mapped 409 ErrorCode.invalid_state message)
state_error _ = none

unfoldable pub map_domain : Exception → Option MappedError
unfolding map_common_error map_missing_header
map_domain e =
    or_option (domain_error e)
      (or_option (map_common_error e) (or_option (map_missing_header e) (state_error e)))
