-- ===== src/Kafka/Config/Defaults.antt =====
-- What holds of a configuration that LoadConfig (internal/kafka/config.go) returns.
use mcp_server_dynamodb_sage.Prelude.{
  String, ◌≡◌, refl, Bool, true, false, some, List, [], ◌∷◌, ◌++◌, Assoc, lookup-insert, str_eq,
  any, arith, str_eq_refl, if◌then◌else◌,
}
use mathlib.Core.Path.{subst}
use mathlib.Core.Option.{some-injective}
use mcp_server_dynamodb_sage.Prelude.Int.{pos, eqb_ℤ}
use mcp_server_dynamodb_sage.Prelude.Float.{Float64, is_zero}
use mcp_server_dynamodb_sage.Kafka.Config.{
  DlqConfig, KafkaConfig, KafkaFile, unreadable, malformed, decoded, topic_of, split, fill_brokers,
  fill_topic, fill_topics, fill_dlq, load_kafka_config, filled, named_topics, client_topics,
}

abbrev pub is_empty : List String → Bool
is_empty [] = true
is_empty (_ ∷ _) = false

pub record IsReady {F : Type 0} ⦃f : Float64 F⦄ (c : KafkaConfig F) : Type 0 where
  pub has_brokers : is_empty c.brokers ≡ false
  pub has_group : str_eq c.consumer_group_name "" ≡ false
  pub has_heavy_ops : str_eq (topic_of "heavy_ops" c.topics) "" ≡ false
  pub has_notifications : str_eq (topic_of "notifications" c.topics) "" ≡ false
  pub has_dlq : str_eq c.dlq.topic "" ≡ false
  pub retries_set : eqb_ℤ c.dlq.max_retries (pos 0) ≡ false
  pub backoffs_set :
      (eqb_ℤ c.dlq.initial_backoff (pos 0) ≡ false) × (eqb_ℤ c.dlq.max_backoff (pos 0) ≡ false)
  pub multiplier_set : is_zero c.dlq.backoff_multiplier ≡ false
  -- each of the three topics that the server uses is subscribed to
  pub listens :
      (any (str_eq (topic_of "heavy_ops" c.topics)) (client_topics c) ≡ true)
      × (any (str_eq (topic_of "notifications" c.topics)) (client_topics c) ≡ true)
      × (any (str_eq c.dlq.topic) (client_topics c) ≡ true)

fill_topic_here :
    (k d : String) (ts : Assoc String)
    → str_eq d "" ≡ false
    → str_eq (topic_of k (fill_topic k d ts)) "" ≡ false
fill_topic_here k d ts h = ground (arith, lookup-insert k k d ts, str_eq_refl k)

fill_topic_there :
    (k j d : String) (ts : Assoc String)
    → str_eq k j ≡ false
    → topic_of j (fill_topic k d ts) ≡ topic_of j ts
fill_topic_there k j d ts h = ground (arith, lookup-insert k j d ts)

named_topics_of_lookup :
    (k : String) (ts : Assoc String)
    → str_eq (topic_of k ts) "" ≡ false
    → any (str_eq (topic_of k ts)) (named_topics ts) ≡ true
unfolding named_topics
named_topics_of_lookup k [] h = absurd (cc (h, str_eq_refl ""))
named_topics_of_lookup k ((j, t) ∷ ts) h =
    ground (arith, str_eq_refl t, named_topics_of_lookup k ts)

any_append_left :
    (p : String → Bool) (xs ys : List String) → any p xs ≡ true → any p (xs ++ ys) ≡ true
any_append_left p [] ys h = absurd cc
any_append_left p (x ∷ xs) ys h = ground (arith, any_append_left p xs ys)

any_append_right :
    (p : String → Bool) (xs ys : List String) → any p ys ≡ true → any p (xs ++ ys) ≡ true
any_append_right p [] ys h = h
any_append_right p (x ∷ xs) ys h = ground (arith, any_append_right p xs ys h)

heavy_ops_topic : (ts : Assoc String) → str_eq (topic_of "heavy_ops" (fill_topics ts)) "" ≡ false
unfolding fill_topics str_eq
heavy_ops_topic ts =
    rw
      (fill_topic_there "notifications" "heavy_ops" "dynamodb-sage-notifications"
        (fill_topic "heavy_ops" "dynamodb-sage-heavy-ops" ts) refl)
      (fill_topic_here "heavy_ops" "dynamodb-sage-heavy-ops" ts refl)

notifications_topic :
    (ts : Assoc String) → str_eq (topic_of "notifications" (fill_topics ts)) "" ≡ false
unfolding fill_topics str_eq
notifications_topic ts =
    fill_topic_here "notifications" "dynamodb-sage-notifications"
      (fill_topic "heavy_ops" "dynamodb-sage-heavy-ops" ts) refl

fill_brokers_some : (env : String) (bs : List String) → is_empty (fill_brokers env bs) ≡ false
unfolding fill_brokers split
fill_brokers_some env [] = ground arith
fill_brokers_some env (b ∷ bs) = ground arith

or_default : (d s : String) → str_eq d "" ≡ false → str_eq (if str_eq s "" then d else s) "" ≡ false
or_default d s h = ground arith

literals : (str_eq "dynamodb-sage" "" ≡ false) × (str_eq "dynamodb-sage-dlq" "" ≡ false)
unfolding str_eq
literals = (refl, refl)

listens_to_dlq :
    (t : String) (ts : List String)
    → str_eq t "" ≡ false
    → any (str_eq t) (ts ++ (if str_eq t "" then [] else t ∷ [])) ≡ true
listens_to_dlq t ts h = any_append_right (str_eq t) ts _ (ground (arith, str_eq_refl t))

listens_to_topic :
    {F : Type 0} (k : String) (c : KafkaConfig F)
    → str_eq (topic_of k c.topics) "" ≡ false
    → any (str_eq (topic_of k c.topics)) (client_topics c) ≡ true
unfolding client_topics
listens_to_topic k c h =
    any_append_left (str_eq (topic_of k c.topics)) (named_topics c.topics) _
      (named_topics_of_lookup k c.topics h)

module _ {F : Type 0} ⦃f : Float64 F⦄ where
  dlq_topic : (d : DlqConfig F) → str_eq (fill_dlq d).topic "" ≡ false
  unfolding fill_dlq
  dlq_topic d = or_default "dynamodb-sage-dlq" d.topic literals.1

  dlq_retries : (d : DlqConfig F) → eqb_ℤ (fill_dlq d).max_retries (pos 0) ≡ false
  unfolding fill_dlq
  dlq_retries d = ground arith

  dlq_backoffs :
      (d : DlqConfig F)
      → (eqb_ℤ (fill_dlq d).initial_backoff (pos 0) ≡ false)
        × (eqb_ℤ (fill_dlq d).max_backoff (pos 0) ≡ false)
  unfolding fill_dlq
  dlq_backoffs d = (ground arith, ground arith)

  dlq_multiplier : (d : DlqConfig F) → is_zero (fill_dlq d).backoff_multiplier ≡ false
  unfolding fill_dlq
  dlq_multiplier d = ground (arith, f.pos-not_eq 20 1)

-- Whatever the file and KAFKA_BROKERS hold, a Kafka configuration that LoadConfig returns is ready
-- to use: it has a broker, a group, a topic for heavy operations, one for notifications and one
-- for dead letters, its retries and backoffs are not 0, and the client that NewClient makes of it
-- subscribes to each of the three topics.
pub load_kafka_config-IsReady :
    {F : Type 0} ⦃f : Float64 F⦄ (env : String) (file : KafkaFile F) {c : KafkaConfig F}
    → load_kafka_config env file ≡ some c
    → IsReady c
unfolding load_kafka_config filled client_topics
load_kafka_config-IsReady env unreadable h = cc
load_kafka_config-IsReady env malformed h = cc
load_kafka_config-IsReady {F} ⦃f⦄ env (decoded c) h = subst IsReady (some-injective _ _ h) (record {
  has_brokers = fill_brokers_some env c.brokers;
  has_group = or_default "dynamodb-sage" c.consumer_group_name literals.0;
  has_heavy_ops = heavy_ops_topic c.topics;
  has_notifications = notifications_topic c.topics;
  has_dlq = dlq_topic c.dlq;
  retries_set = dlq_retries c.dlq;
  backoffs_set = dlq_backoffs c.dlq;
  multiplier_set = dlq_multiplier c.dlq;
  listens = (
    listens_to_topic "heavy_ops" (filled env c) (heavy_ops_topic c.topics),
    listens_to_topic "notifications" (filled env c) (notifications_topic c.topics),
    listens_to_dlq (fill_dlq c.dlq).topic (named_topics (fill_topics c.topics)) (dlq_topic c.dlq),
  );
})
