-- ===== src/ServerA/RequestLog.antt =====
-- apps/server-a/src: the log of issue requests, domain/issue-request.ts with its repository
-- infrastructure/persistence/typeorm-issue-request.repository.ts and issue-request.mapper.ts, on the
-- table of migrations/server-a. The INSERT is TypeORM's and MySQL's.
use coupon_nestjs.Prelude.{ℕ, ℤ, pos, ◌≡◌, String, Option, some, List, [], ◌∷◌, ◌++◌}
use coupon_nestjs.Common.Errors.{Exception}
use coupon_nestjs.Common.Filter.{or_else}
use coupon_nestjs.Common.Statuses.{IssueRequestStatus}
use coupon_nestjs.Effect.{Result, ok, thrown, Async, pure, ◌>>=◌}

pub record IssueRequest : Type 0 where
  pub id : Option ℤ
  pub request_id : String
  pub user_id : ℤ
  pub event_id : ℤ
  pub coupon_type_id : ℤ
  pub status : IssueRequestStatus
  pub created_at : ℕ

-- `issue_request`
pub record IssueRequestRow : Type 0 where
  pub id : ℤ
  pub request_id : String
  pub user_id : ℤ
  pub event_id : ℤ
  pub coupon_type_id : ℤ
  pub status : IssueRequestStatus
  pub created_at : ℕ

-- The columns that the INSERT names; the database gives the other two.
pub record InsertValues : Type 0 where
  pub request_id : String
  pub user_id : ℤ
  pub event_id : ℤ
  pub coupon_type_id : ℤ
  pub status : IssueRequestStatus

abbrev pub to_insert_values : IssueRequest → InsertValues
to_insert_values request = record {
  request_id = request.request_id;
  user_id = request.user_id;
  event_id = request.event_id;
  coupon_type_id = request.coupon_type_id;
  status = request.status;
}

abbrev pub inserted_row : ℤ → ℕ → InsertValues → IssueRequestRow
inserted_row id created_at v = record {
  id = id;
  request_id = v.request_id;
  user_id = v.user_id;
  event_id = v.event_id;
  coupon_type_id = v.coupon_type_id;
  status = v.status;
  created_at = created_at;
}

-- The identifier of the row comes back, or the statement fails, with or without effect.
pub data Inserts (v : InsertValues) (rows : List IssueRequestRow)
    (out : Result (Option ℤ) × List IssueRequestRow) : Type 0 where
  inserted :
      (id : ℤ) (created_at : ℕ)
      → out ≡ (ok (some id), rows ++ inserted_row id created_at v ∷ [])
      → Inserts v rows out
  lost :
      (e : Exception) (id : ℤ) (created_at : ℕ)
      → out ≡ (thrown e, rows ++ inserted_row id created_at v ∷ [])
      → Inserts v rows out
  failed : (e : Exception) → out ≡ (thrown e, rows) → Inserts v rows out

pub record RequestTable : Type 0 where
  pub insert : InsertValues → Async (List IssueRequestRow) (Option ℤ)
  pub insert_lem : (v : InsertValues) (rows : List IssueRequestRow) → Inserts v rows (insert v rows)

-- `IssueRequest.reconstitute`, with `Number(result.identifiers[0]?.id ?? 0)`.
abbrev pub reconstitute : Option ℤ → IssueRequest → IssueRequest
reconstitute identifier request = record request { id = some (or_else identifier (pos 0)) }

-- The repository: one INSERT, and no SELECT for the column that the database has filled.
unfoldable pub save : RequestTable → IssueRequest → Async (List IssueRequestRow) IssueRequest
save table request =
    table.insert (to_insert_values request) >>= λ identifier. pure (reconstitute identifier request)
