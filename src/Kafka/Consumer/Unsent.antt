-- ===== src/Kafka/Consumer/Unsent.antt =====
-- What ConsumeClaim of internal/kafka/consumer.go does with a message that can neither be processed nor
-- sent as a dead letter.
use mcp_server_dynamodb_sage.Prelude.{
  ℕ, suc, String, ◌≡◌, Bool, false, Option, none, some, List, ◌∷◌, any, Assoc, lookup, arith, ◌∙◌,
}
use mathlib.Core.Path.{subst}
use mcp_server_dynamodb_sage.Prelude.Int.{ℤ, pos_part}
use mcp_server_dynamodb_sage.Kafka.Consumer.{
  Retries, Retried, Message, Arrival, arrived, Handler, DeadLetter, out_of_fuel, ended, Session,
  returned, mark, dead_letter, process_with_retry, settle, consume, consume_claim,
}
use mcp_server_dynamodb_sage.Kafka.Consumer.Retry.{
  attempts, is_none, EndsWithin, process_with_retry-EndsWithin,
}
use mcp_server_dynamodb_sage.Kafka.Consumer.Delivery.{handled}

module _ (backoff : ℕ → ℤ) (c : Retries) (handlers : Assoc Handler)
    (send : ℕ → DeadLetter → Option String) (on_complete : Bool) where
  breaks_off :
      (m : Message) (arrivals : List Arrival) (s t : Session) (e : String)
      → consume backoff c handlers send on_complete m s ≡ (t, returned e)
      → consume_claim backoff c handlers send on_complete (arrived m ∷ arrivals) s ≡ (t, returned e)
  unfolding consume_claim
  breaks_off m arrivals s t e h = ground arith

  unsent :
      (m : Message) (h : Handler) (s : Session) (e : String) (r : Retried)
      → ((o : ℕ) (l : DeadLetter) → send o l ≡ some e)
      → EndsWithin false (pos_part c.max_retries) c.max_backoff r
      → settle backoff c handlers send on_complete m r s ≡ (mark m s, returned e)
  unfolding settle
  unsent m h s e out_of_fuel fails ends = absurd ends
  unsent m h s e (ended none ds) fails ends = absurd (cc (ends.0))
  unsent m h s e (ended (some e') ds) fails ends =
      ground (arith, fails m.offset (dead_letter c m e'))

  -- Where no dead letter can be sent, and the message that ConsumeClaim takes has a handler that fails
  -- at each of its attempts, MaxRetries and one more, the message is marked all the same and
  -- ConsumeClaim returns the error of the sending, whatever was to come after: no letter was sent, and
  -- the hook was not called.
  pub unsent_letter_is_lost :
      (m : Message) (arrivals : List Arrival) (s : Session) (h : Handler) (e : String)
      → lookup m.topic handlers ≡ some h
      → any (λ i. is_none (h m i)) (attempts 0 (suc (pos_part c.max_retries))) ≡ false
      → ((o : ℕ) (l : DeadLetter) → send o l ≡ some e)
      → consume_claim backoff c handlers send on_complete (arrived m ∷ arrivals) s
        ≡ (mark m s, returned e)
  unsent_letter_is_lost m arrivals s h e found fails refused =
      breaks_off m arrivals s (mark m s) e (
        handled backoff c handlers send on_complete m h s found
        ∙ unsent m h s e _ refused (
            subst
              (λ b.
                EndsWithin b (pos_part c.max_retries) c.max_backoff
                  (process_with_retry backoff c (h m)))
              fails (process_with_retry-EndsWithin backoff c (h m))))
