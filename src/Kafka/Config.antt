-- ===== src/Kafka/Config.antt =====
-- internal/kafka/config.go: the configuration and the defaults that LoadConfig fills in, and the
-- topics that NewClient (internal/kafka/client.go) subscribes to.
pub mod Defaults
use Prim.Native.Char.{Char, code}
use mcp_server_dynamodb_sage.Prelude.{
  String, Bool, true, false, Option, none, some, List, [], ◌∷◌, ◌++◌, Assoc, lookup, insert, str_eq,
  ◌==◌, if◌then◌else◌,
}
use mcp_server_dynamodb_sage.Prelude.Int.{ℤ, pos, eqb_ℤ}
use mcp_server_dynamodb_sage.Prelude.Float.{Float64, is_zero}

-- A time.Duration is its number of nanoseconds.
pub record DlqConfig (F : Type 0) : Type 0 where
  pub topic : String
  pub max_retries : ℤ
  pub initial_backoff : ℤ
  pub max_backoff : ℤ
  pub backoff_multiplier : F

pub record KafkaConfig (F : Type 0) : Type 0 where
  pub enabled : Bool
  pub brokers : List String
  pub topics : Assoc String
  pub consumer_group_name : String
  pub dlq : DlqConfig F

-- The text that Go's map gives for a key, which is empty when the key is missing.
abbrev pub topic_of : String → Assoc String → String
topic_of k topics = elim (lookup k topics) [ none ↦ "" | some t ↦ t ]

-- strings.Split(s, ","), from the last character on: the first part, and the others.
unfoldable pub split_from : String → String × List String
split_from String.[] = ("", [])
split_from (String.◌∷◌ ch s) =
    let (part, parts) = split_from s in
    if code ch == b',' then ("", part ∷ parts) else (String.◌∷◌ ch part, parts)

unfoldable pub split : String → List String
unfolding split_from
split s = let (part, parts) = split_from s in part ∷ parts

-- KAFKA_BROKERS comes before the file.
unfoldable pub fill_brokers : String → List String → List String
unfolding split
fill_brokers env brokers =
    if str_eq env "" then elim brokers [ [] ↦ "kafka:9092" ∷ [] | b ∷ bs ↦ b ∷ bs ] else split env

-- One of the two tests on the topics.
abbrev pub fill_topic : String → String → Assoc String → Assoc String
fill_topic k default topics =
    if str_eq (topic_of k topics) "" then insert k default topics else topics

unfoldable pub fill_topics : Assoc String → Assoc String
fill_topics topics =
    fill_topic "notifications" "dynamodb-sage-notifications"
      (fill_topic "heavy_ops" "dynamodb-sage-heavy-ops" topics)

abbrev pub second : ℤ
second = pos 1000000000

abbrev pub thirty_seconds : ℤ
thirty_seconds = pos 30000000000

-- What os.ReadFile and yaml.Unmarshal give.
pub data KafkaFile (F : Type 0) : Type 0 where
  unreadable : KafkaFile F
  malformed : KafkaFile F
  decoded : KafkaConfig F → KafkaFile F

module _ {F : Type 0} ⦃f : Float64 F⦄ where
  unfoldable pub fill_dlq : DlqConfig F → DlqConfig F
  fill_dlq d = record {
    topic = if str_eq d.topic "" then "dynamodb-sage-dlq" else d.topic;
    max_retries = if eqb_ℤ d.max_retries (pos 0) then pos 3 else d.max_retries;
    initial_backoff = if eqb_ℤ d.initial_backoff (pos 0) then second else d.initial_backoff;
    max_backoff = if eqb_ℤ d.max_backoff (pos 0) then thirty_seconds else d.max_backoff;
    backoff_multiplier =
        if is_zero d.backoff_multiplier then f.decimal 20 1 else d.backoff_multiplier;
  }

  -- LoadConfig after the file is decoded, given KAFKA_BROKERS.
  unfoldable pub filled : String → KafkaConfig F → KafkaConfig F
  unfolding fill_brokers fill_topics fill_dlq
  filled env c = record c {
    brokers = fill_brokers env c.brokers;
    topics = fill_topics c.topics;
    consumer_group_name =
        if str_eq c.consumer_group_name "" then "dynamodb-sage" else c.consumer_group_name;
    dlq = fill_dlq c.dlq;
  }

  unfoldable pub load_kafka_config : String → KafkaFile F → Option (KafkaConfig F)
  unfolding filled
  load_kafka_config env unreadable = none
  load_kafka_config env malformed = none
  load_kafka_config env (decoded c) = some (filled env c)

-- The loop of NewClient over the topics, in the order in which the map is visited.
unfoldable pub named_topics : Assoc String → List String
named_topics [] = []
named_topics ((_, t) ∷ topics) =
    let rest = named_topics topics in if str_eq t "" then rest else t ∷ rest

unfoldable pub client_topics : {F : Type 0} → KafkaConfig F → List String
unfolding named_topics
client_topics c = named_topics c.topics ++ (if str_eq c.dlq.topic "" then [] else c.dlq.topic ∷ [])
