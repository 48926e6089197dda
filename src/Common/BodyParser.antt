-- ===== src/Common/BodyParser.antt =====
-- libs/common/src/api/body-parser.ts: the reply to a body that is no JSON, which no filter sees.
use coupon_nestjs.Prelude.{Bool, true, false, Option, none, some}
use coupon_nestjs.Common.Http.{
  Reply, failure, error_of, ErrorCode, code_text, malformed_body_message,
}

-- `onParseError`: whether the error is a `SyntaxError` with a body; `none` is that it is passed on.
unfoldable pub on_parse_error : {T : Type 0} → Bool → Option (Reply T)
on_parse_error true = some (record {
  status = 400;
  retry_after = none;
  body = failure (error_of (code_text ErrorCode.malformed_body) malformed_body_message);
})
on_parse_error false = none
