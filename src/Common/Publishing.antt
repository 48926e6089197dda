-- ===== src/Common/Publishing.antt =====
-- The Kafka publishers of server-b and server-c (apps/*/src/infrastructure/kafka/issue-request.publisher.ts,
-- issue-result.publisher.ts): a publisher connects in the background, and again before a send if that has
-- failed.
use coupon_nestjs.Prelude.{◌≡◌, refl, Bool, true, false, List}
use coupon_nestjs.Common.Errors.{Exception}
use coupon_nestjs.Common.Broker.{Broker, Message, Sends}
use coupon_nestjs.Effect.{Result, ok, thrown, Async, ◌>>◌}

-- The flag and the topic.
pub record Publisher (V : Type 0) : Type 0 where
  pub connected : Bool
  pub log : List (Message V)

module _ {V : Type 0} where
  abbrev on_topic :
      Publisher V → Result (Unit {0}) × List (Message V) → Result (Unit {0}) × Publisher V
  on_topic p (r, log) = (r, record p { log = log })

  -- What `connect` came to.
  abbrev connecting : Result (Unit {0}) → Async (Publisher V) (Unit {0})
  connecting (ok _) p = (ok tt, record p { connected = true })
  connecting (thrown e) p = (thrown e, p)

  abbrev unless_connected : Bool → Result (Unit {0}) → Async (Publisher V) (Unit {0})
  unless_connected true connects p = (ok tt, p)
  unless_connected false connects p = connecting connects p

  -- `producer` is kafkajs's, once it is connected.
  unfoldable pub publish : Broker V → Result (Unit {0}) → Message V → Async (Publisher V) (Unit {0})
  publish producer connects m p =
      ((λ q. unless_connected q.connected connects q) >> λ q. on_topic q (producer.send m q.log)) p

  -- What a publish comes to.
  pub data Publishes (m : Message V) (p : Publisher V) (out : Result (Unit {0}) × Publisher V)
      : Type 0 where
    sent : out.1.connected ≡ true → Sends m p.log (out.0, out.1.log) → Publishes m p out
    unconnected : (e : Exception) → p.connected ≡ false → out ≡ (thrown e, p) → Publishes m p out

  on_topic-Publishes :
      (m : Message V) (p q : Publisher V) (out : Result (Unit {0}) × List (Message V))
      → q.connected ≡ true
      → Sends m p.log out
      → Publishes m p (on_topic q out)
  on_topic-Publishes m p q (r, log) h s = sent h s

  publish_with_flag :
      (producer : Broker V) (connects : Result (Unit {0})) (m : Message V) (connected : Bool)
      (log : List (Message V))
      → let p : Publisher V = record { connected = connected; log = log } in
        Publishes m p (publish producer connects m p)
  unfolding publish
  publish_with_flag producer connects m true log =
      let p : Publisher V = record { connected = true; log = log } in
      on_topic-Publishes m p p (producer.send m log) refl (producer.send_lem m log)
  publish_with_flag producer (ok _) m false log =
      on_topic-Publishes m (record { connected = false; log = log })
        (record { connected = true; log = log }) (producer.send m log) refl
        (producer.send_lem m log)
  publish_with_flag producer (thrown e) m false log = unconnected e refl refl

  -- A message is sent once over a connection, whether or not that is acknowledged, or there is no
  -- connection, and then the call throws and nothing has changed, so that the next call connects.
  pub publish-Publishes :
      (producer : Broker V) (connects : Result (Unit {0})) (m : Message V) (p : Publisher V)
      → Publishes m p (publish producer connects m p)
  publish-Publishes producer connects m p = publish_with_flag producer connects m p.connected p.log

  -- A publisher whose flag stands so, as the clients see it.
  abbrev pub broker_of : Broker V → Bool → Result (Unit {0}) → Broker V
  broker_of producer connected connects = record {
    send = λ m log.
        let out = publish producer connects m (record { connected = connected; log = log }) in
        (out.0, out.1.log);
    send_lem = λ m log.
        elim (publish-Publishes producer connects m (record { connected = connected; log = log })) [
          | sent h s ↦ s
          | unconnected e h ran ↦ rw ran (Sends.failed e refl)
        ];
  }
