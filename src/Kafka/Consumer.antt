-- ===== src/Kafka/Consumer.antt =====
-- internal/kafka/consumer.go: processWithRetry and the loop of ConsumeClaim. A handler is what its
-- attempts on a message give, the first being attempt 0: an error, or `none`. A claim is of one
-- partition, in which each message has an offset of its own, so messages that are alike in all
-- else may fare differently. The delay before a retry, initial * multiplier ^ retry, is computed in
-- float64: it is a parameter. What the `select` of ConsumeClaim takes, one after the other, is a list.
pub mod Retry
pub mod Delivery
pub mod Unsent
use mcp_server_dynamodb_sage.Prelude.{
  ℕ, zero, suc, String, Bool, true, false, Option, none, some, List, [], ◌∷◌, ◌++◌, Assoc, lookup,
  str_append, if◌then◌else◌,
}
use mcp_server_dynamodb_sage.Prelude.Int.{ℤ, pos, pos_part, leb_ℤ, ltb_ℤ}

pub record Retries : Type 0 where
  pub max_retries : ℤ
  pub max_backoff : ℤ

pub record Message : Type 0 where
  pub topic : String
  pub offset : ℕ
  pub key : String
  pub value : String

-- What the `select` takes: a message, or that the session's context is done, with its error.
pub data Arrival : Type 0 where
  arrived : Message → Arrival
  cancelled : String → Arrival

abbrev pub Handler : Type 0
Handler = Message → ℕ → Option String

pub record DeadLetter : Type 0 where
  pub key : String
  pub original_payload : String
  pub original_topic : String
  pub retry_count : ℤ
  pub error_message : String

-- The error of processWithRetry, and the delays that it slept.
pub data Retried : Type 0 where
  out_of_fuel : Retried
  ended : Option String → List ℤ → Retried

-- The loop goes on, until the channel is closed and it returns no error; it returned an error; or it
-- ran out of fuel.
pub data Consumed : Type 0 where
  went_on : Consumed
  returned : String → Consumed
  stuck : Consumed

-- The messages marked, the keys that onComplete was called with, and the dead letters sent.
pub record Session : Type 0 where
  pub marked : List Message
  pub completed : List String
  pub dead : List DeadLetter

abbrev pub slept : ℤ → Retried → Retried
slept d out_of_fuel = out_of_fuel
slept d (ended e ds) = ended e (d ∷ ds)

abbrev pub mark : Message → Session → Session
mark m s = record s { marked = s.marked ++ (m ∷ []) }

-- onComplete is called if it is set.
abbrev pub complete : Bool → Message → Session → Session
complete true m s = record s { completed = s.completed ++ (m.key ∷ []) }
complete false m s = s

abbrev pub dead_letter : Retries → Message → String → DeadLetter
dead_letter c m e = record {
  key = m.key;
  original_payload = m.value;
  original_topic = m.topic;
  retry_count = c.max_retries;
  error_message = e;
}

module _ (backoff : ℕ → ℤ) (c : Retries) where
  abbrev pub delay : ℕ → ℤ
  delay retry = if ltb_ℤ c.max_backoff (backoff retry) then c.max_backoff else backoff retry

  -- The loop of processWithRetry, from `retry`.
  unfoldable pub retry_from : ℕ → (ℕ → Option String) → ℕ → Retried
  retry_from zero attempt retry = out_of_fuel
  retry_from (suc fuel) attempt retry =
      let rest = retry_from fuel attempt (suc retry) in
      elim (attempt retry) [
        | none ↦ ended none []
        | some e ↦
            if leb_ℤ c.max_retries (pos retry)
            then ended (some (str_append "max retries reached: " e)) []
            else slept (delay retry) rest
      ]

  unfoldable pub process_with_retry : (ℕ → Option String) → Retried
  unfolding retry_from
  process_with_retry attempt = retry_from (suc (pos_part c.max_retries)) attempt 0

  -- SendToDLQ: the error, if there is one, of sending a letter of the message at an offset.
  module _ (handlers : Assoc Handler) (send : ℕ → DeadLetter → Option String)
      (on_complete : Bool) where
    -- After processWithRetry.
    unfoldable pub settle : Message → Retried → Session → Session × Consumed
    settle m out_of_fuel s = (s, stuck)
    settle m (ended none ds) s = (mark m (complete on_complete m s), went_on)
    settle m (ended (some e) ds) s = elim (send m.offset (dead_letter c m e)) [
      | some e' ↦ (mark m s, returned e')
      | none ↦ (
        mark m (complete on_complete m (record s { dead = s.dead ++ (dead_letter c m e ∷ []) })),
        went_on,
      )
    ]

    -- One message: with no handler it is only acknowledged.
    unfoldable pub consume : Message → Session → Session × Consumed
    unfolding process_with_retry settle
    consume m s = elim (lookup m.topic handlers) [
      | none ↦ (mark m s, went_on)
      | some handler ↦ settle m (process_with_retry (handler m)) s
    ]

    -- The end of the list is the end of the channel, which is closed.
    unfoldable pub consume_claim : List Arrival → Session → Session × Consumed
    unfolding consume
    consume_claim [] s = (s, went_on)
    consume_claim (cancelled e ∷ arrivals) s = (s, returned e)
    consume_claim (arrived m ∷ arrivals) s =
        let (s', end) = consume m s in
        elim end [
          | went_on ↦ consume_claim arrivals s'
          | returned e ↦ (s', returned e)
          | stuck ↦ (s', stuck)
        ]
