-- ===== src/Common/Broker.antt =====
-- The Kafka broker behind kafkajs, which is not part of the repository: sending a message to a topic.
-- The log of a topic holds its messages in the order in which the broker took them.
use coupon_nestjs.Prelude.{◌≡◌, String, List, [], ◌∷◌, ◌++◌}
use coupon_nestjs.Common.Errors.{Exception}
use coupon_nestjs.Effect.{Result, ok, thrown, Async}

pub record Message (V : Type 0) : Type 0 where
  pub key : String
  pub value : V

-- A send that failed may have been taken: its acknowledgement was lost.
pub data Sends {V : Type 0} (m : Message V) (log : List (Message V))
    (out : Result (Unit {0}) × List (Message V)) : Type 0 where
  acknowledged : out ≡ (ok tt, log ++ m ∷ []) → Sends m log out
  unacknowledged : (e : Exception) → out ≡ (thrown e, log ++ m ∷ []) → Sends m log out
  failed : (e : Exception) → out ≡ (thrown e, log) → Sends m log out

pub record Broker (V : Type 0) : Type 0 where
  pub send : Message V → Async (List (Message V)) (Unit {0})
  pub send_lem : (m : Message V) (log : List (Message V)) → Sends m log (send m log)
