-- ===== src/Lib.antt =====
-- The coupon issuing system: three NestJS servers (apps/server-a, apps/server-b, apps/server-c) over a
-- common library (libs/common).
--
-- server-a takes a user's issue request, answers SOLD_OUT at once when Redis has the sold-out key of the
-- coupon type, and otherwise asks server-b over HTTP; it logs every request. server-b stores the
-- application in Redis, publishes it to the topic coupon-issue-request, and a scheduler republishes or
-- concludes what has waited too long. server-c consumes the topic: one MySQL transaction takes a unit
-- of stock, inserts the coupon row and appends the report to the outbox, which a poller publishes to
-- coupon-issue-result; after the commit it may set the sold-out key. It also serves the use of coupons
-- (redeem).
--
-- Conventions. A method is a function from the state it may change to a result (a value or the
-- exception thrown) and the new state (Effect); what was written before a throw stays written, and a
-- transaction undoes it. Identifiers are integers (Prelude/Int), instants are their milliseconds, and
-- logging is left out. Random values and the clock are arguments. What is not in the repository is an
-- interface, a record of operations with the laws that their documentation gives: MySQL under TypeORM
-- (ServerC/Engine; every statement may fail, and a plain SELECT reads a snapshot that may be stale),
-- Redis (Common/Cache, ServerB/Redis) and Kafka (Common/Broker), whose commands may fail with or without effect.
-- Examples/Memory fills them by functions.
--
-- Prelude: native numbers, lists, integers, equality.
-- Common/Errors, Http, Filter: libs/common/src/api/errors.ts, api-response.ts, common-error-mapping.ts
--   and base-exception.filter.ts. An exception is data, one constructor for each class.
-- Common/Statuses, Payloads, CouponCode: libs/common/src/coupon/statuses.ts, payloads.ts and
--   coupon-code.ts.
-- Common/LocalDateTime: libs/common/src/api/local-date-time.ts, the texts of a local date and time and
--   of an instant, of the components that a Date gives in UTC. Elsewhere the text of an instant is a parameter.
-- Common/Validation, BodyParser: libs/common/src/api/validation.ts (flattenValidationErrors) and
--   body-parser.ts (onParseError).
-- Common/Publishing: the publishers of server-b and server-c with their connections, which fill the
--   interface of the broker over the producer of kafkajs.
-- Common/Requests: libs/common/src/api/parse-long.pipe.ts and user-id.decorator.ts.
-- ServerA/Filter, ServerB/Filter, ServerC/Filter: the servers' global-exception.filter.ts.
-- ServerA/Issue: apps/server-a/src/application/issue-request.service.ts (issue, save, mapStatus), the
--   reading side of the sold-out cache (isSoldOut) and the controller's reply.
-- ServerA/RequestLog: the request log, domain/issue-request.ts with its TypeORM repository and mapper,
--   over one INSERT.
-- ServerA/Client: infrastructure/client/http-coupon-issuing.client.ts (issue, call, fallback); what
--   cockatiel's policy makes of the calls is a parameter.
-- ServerB/Pending: apps/server-b/src/domain/pending-issue.store.ts, the port of the pending store:
--   its operations on one application with their laws, for a state that stands for the applications.
--   Acceptance, the scheduler and the result consumer run on any store that fills it.
-- ServerB/RedisStore, Keys: its implementation infrastructure/redis/redis-pending-issue.store.ts with
--   redis-keys.ts, over the commands of Redis (ServerB/Redis). RedisStore/Represents says when Redis
--   holds the applications of the port; Saves, Updates and Batch are the operations, and Port fills
--   the port by them. What a search gives is an argument of the scheduler.
-- ServerB/Controller: api/coupon-issue.controller.ts, which server-a calls.
-- ServerB/Publisher, Accept, Scheduler: issue-request.publisher.ts, coupon-issue-accept.service.ts and
--   pending-issue.scheduler.ts (run, sweep, republish, mapStatus). ServerB/Results: the deliveries of
--   infrastructure/kafka/coupon-issue-result.consumer.ts. Scheduler/Attention is one application of a
--   cycle, Sweep the whole cycle, Convergence the cycles after each other.
-- ServerC/Schema, Domain, Repositories: the tables, the aggregates with their mappers, and the TypeORM
--   repositories of apps/server-c/src.
-- ServerC/Issue: application/coupon-issue.processor.ts. runIssueTransaction is cut where its guards
--   return (issue_body, issue_unless, issue_for_event, issue_from_stock, record_failed,
--   record_sold_out, record_success); process joins it with the cache. Issue/Spec is the specification
--   of a delivery, Issue/Stock and Issue/Unique what its decisions keep.
-- ServerC/Redeem: application/redeem-coupon.service.ts (redeem_body, redeem_found, redeem_owned, claim).
-- ServerC/Poller: application/outbox.poller.ts. ServerC/Consumer: the deliveries of
--   infrastructure/kafka/coupon-issue-request.consumer.ts. Common/Consuming: the start with its backoff and
--   the batches, which the consumers of server-b and server-c do alike.
-- ServerC/Events: application/event-query.service.ts over infrastructure/redis/event-cache.store.ts.
-- ServerC/Refresher: application/event-cache.refresher.ts.
-- ServerC/UserCoupons: application/user-coupon-query.service.ts, the lookup and the list, with their
--   controllers.
--   ServerB/Client: infrastructure/client/user-coupon.client.ts, which asks for it.
-- ServerC/Controllers: api/redeem-coupon.controller.ts and event-query.controller.ts.
-- ServerC/System: deliveries, redeem calls and poller cycles in any order. Transactions are put one
--   after another; what two open transactions may see of each other is in the snapshot of
--   ServerC/Engine, in Redeem/Late and Redeem/Twice (the optimistic lock) and in Contract/Redeeming. The collation by
--   which MySQL compares coupon codes is a parameter, a field of the database.
-- Contract: what two servers must agree on.
-- Examples: the theorems at concrete inputs.
--
-- Fuel. The retries of a delivery count down from maxDeliveryAttempts, as the code's loop does; a batch
-- counts down from its record limit. The loop that starts a consumer has no bound in the code: its fuel
-- is one unit for each attempt up to the one that ends it (Consuming/Backoff). Nothing else has a bound of its own.
--
-- Not modelled: the checks of request bodies, which are class-validator's, the calendar of JavaScript's
-- Date, and the wiring, metrics and health endpoints. A COMMIT whose acknowledgement is lost: a
-- transaction that throws has changed nothing. What a delivery does to a message that passes the check
-- with a field of another kind (a text for a number) is a parameter, and a result message is taken to
-- have numbers where it is to have them.
pub mod Prelude
pub mod Common
pub mod Effect
pub mod ServerA
pub mod ServerB
pub mod ServerC
pub mod Contract
pub mod Examples
