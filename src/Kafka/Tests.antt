-- ===== src/Kafka/Tests.antt =====
-- The configuration and the consumer of internal/kafka at concrete inputs.
use mcp_server_dynamodb_sage.Prelude.{
  ℕ, zero, suc, String, ◌≡◌, refl, true, Option, none, some, List, [], ◌∷◌, Assoc, ltb, str_eq,
  if◌then◌else◌,
}
use mcp_server_dynamodb_sage.Prelude.Int.{ℤ, pos}
use mcp_server_dynamodb_sage.Prelude.Decimals.{decimals}
use mcp_server_dynamodb_sage.Kafka.Config.{KafkaConfig, decoded, split, load_kafka_config, filled}
use mcp_server_dynamodb_sage.Kafka.Config.Defaults.{IsReady, load_kafka_config-IsReady}
use mcp_server_dynamodb_sage.Kafka.Consumer.{
  Retries, Message, Arrival, arrived, cancelled, returned, mark, Handler, DeadLetter, Session,
  process_with_retry, retry_from, ended, consume_claim,
}
use mcp_server_dynamodb_sage.Kafka.Consumer.Retry.{EndsWithin, process_with_retry-EndsWithin}
use mcp_server_dynamodb_sage.Kafka.Consumer.Delivery.{IsConsumed, consume_claim-IsConsumed}
use mcp_server_dynamodb_sage.Kafka.Consumer.Unsent.{unsent_letter_is_lost}

-- A file that turns Kafka on and names one topic.
abbrev sparse : KafkaConfig (ℕ × ℕ)
sparse = record {
  enabled = true;
  brokers = [];
  topics = ("heavy_ops", "jobs") ∷ [];
  consumer_group_name = "";
  dlq = record {
    topic = "";
    max_retries = pos 0;
    initial_backoff = pos 0;
    max_backoff = pos 0;
    backoff_multiplier = (0, 0);
  };
}

load_kafka_config-IsReady_example : IsReady (filled "a:1,b:2" sparse)
unfolding load_kafka_config
load_kafka_config-IsReady_example = load_kafka_config-IsReady "a:1,b:2" (decoded sparse) refl

split_brokers : split "a:1,b:2" ≡ "a:1" ∷ "b:2" ∷ []
unfolding split
split_brokers = refl

abbrev retries : Retries
retries = record { max_retries = pos 2; max_backoff = pos 30 }

abbrev doubling : ℕ → ℤ
doubling zero = pos 10
doubling (suc zero) = pos 20
doubling (suc (suc n)) = pos 40

-- The first message can be processed, those after it cannot.
abbrev fickle : Handler
fickle m n = if ltb m.offset 1 then none else some "down"

-- The third attempt works.
abbrev third : ℕ → Option String
third n = if ltb n 2 then some "down" else none

third_works : process_with_retry doubling retries third ≡ ended none (pos 10 ∷ pos 20 ∷ [])
unfolding process_with_retry retry_from
third_works = refl

process_with_retry-EndsWithin_example :
    EndsWithin true 2 (pos 30) (process_with_retry doubling retries third)
process_with_retry-EndsWithin_example = process_with_retry-EndsWithin doubling retries third

abbrev handlers : Assoc Handler
handlers = ("jobs", fickle) ∷ []

abbrev job : ℕ → Message
job offset = record { topic = "jobs"; offset = offset; key = "j"; value = "{}" }

-- The session ends before the last message is taken.
abbrev taken : List Arrival
taken = arrived (job 0) ∷ arrived (job 1) ∷ cancelled "context canceled" ∷ arrived (job 2) ∷ []

abbrev fresh : Session
fresh = record { marked = []; completed = []; dead = [] }

abbrev send : ℕ → DeadLetter → Option String
send o l = none

consume_claim-IsConsumed_example :
    IsConsumed doubling retries handlers send true
      (returned "context canceled")
      (job 0 ∷ job 1 ∷ [])
      fresh
      (consume_claim doubling retries handlers send true taken fresh)
consume_claim-IsConsumed_example =
    consume_claim-IsConsumed doubling retries handlers send true taken fresh (λ o l. refl)

abbrev refuse : ℕ → DeadLetter → Option String
refuse o l = some "broker down"

unsent_letter_is_lost_example :
    consume_claim doubling retries handlers refuse true (arrived (job 1) ∷ []) fresh
    ≡ (mark (job 1) fresh, returned "broker down")
unfolding str_eq
unsent_letter_is_lost_example =
    unsent_letter_is_lost doubling retries handlers refuse true (job 1) [] fresh fickle
      "broker down" refl refl (λ o l. refl)
