-- ===== src/Kafka.antt =====
-- internal/kafka: the configuration's defaults and the consumer, with its retries and its queue of
-- dead letters.
pub mod Config
pub mod Consumer
mod Tests
