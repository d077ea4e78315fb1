-- ===== src/Kafka/Consumer/Delivery.antt =====
-- What ConsumeClaim of internal/kafka/consumer.go does with each message that it is given, until the
-- messages end or the session does.
use mcp_server_dynamodb_sage.Prelude.{
  ℕ, suc, String, ◌≡◌, refl, Bool, true, false, not, ◌&&◌, Option, none, some, List, [], ◌∷◌, ◌++◌,
  map, any, Assoc, lookup, arith, if◌then◌else◌, Option-cases, inl, inr, ap, ◌∙◌, sym,
}
use mathlib.Core.List.{append_assoc, append-nil, map-append}
use mcp_server_dynamodb_sage.Prelude.Int.{ℤ, pos_part}
use mcp_server_dynamodb_sage.Kafka.Consumer.{
  Retries, Retried, Message, Arrival, arrived, cancelled, Handler, DeadLetter, out_of_fuel, ended,
  Session, Consumed, went_on, returned, mark, complete, dead_letter, process_with_retry, settle,
  consume, consume_claim,
}
use mcp_server_dynamodb_sage.Kafka.Consumer.Retry.{
  attempts, is_none, EndsWithin, process_with_retry-EndsWithin,
}

-- The keys of the messages that pass a test.
abbrev pub keys : (Message → Bool) → List Message → List String
keys p [] = []
keys p (m ∷ ms) = if p m then m.key ∷ keys p ms else keys p ms

-- The messages that are taken before the session's context is found done, and what ConsumeClaim
-- returns where nothing else ends it: the context's error then, and none at the end of the messages.
abbrev pub before_end : List Arrival → List Message
before_end [] = []
before_end (cancelled e ∷ arrivals) = []
before_end (arrived m ∷ arrivals) = m ∷ before_end arrivals

abbrev pub end_of : List Arrival → Consumed
end_of [] = went_on
end_of (cancelled e ∷ arrivals) = returned e
end_of (arrived m ∷ arrivals) = end_of arrivals

complete_keeps :
    (b : Bool) (m : Message) (s : Session)
    → ((complete b m s).marked ≡ s.marked)
      × ((complete b m s).dead ≡ s.dead)
      × ((complete b m s).completed ≡ s.completed ++ (if b then m.key ∷ [] else []))
complete_keeps true m s = (refl, refl, refl)
complete_keeps false m s = (refl, refl, sym (append-nil s.completed))

chained :
    {A : Type 0} {x y : List A} (z j k : List A) {l : List A}
    → x ≡ y ++ k
    → y ≡ z ++ j
    → j ++ k ≡ l
    → x ≡ z ++ l
chained z j k hx hy hl = hx ∙ ap (λ r. r ++ k) hy ∙ append_assoc z j k ∙ ap (λ r. z ++ r) hl

module _ (backoff : ℕ → ℤ) (c : Retries) (handlers : Assoc Handler)
    (send : ℕ → DeadLetter → Option String) (on_complete : Bool) where
  -- Whether a message has a handler, and whether that fails as often as it is tried.
  abbrev pub is_handled : Message → Bool
  is_handled m = elim (lookup m.topic handlers) [ none ↦ false | some _ ↦ true ]

  abbrev pub gives_up : Message → Bool
  gives_up m = elim (lookup m.topic handlers) [
    | none ↦ false
    | some h ↦ not (any (λ i. is_none (h m i)) (attempts 0 (suc (pos_part c.max_retries))))
  ]

  -- From one session to another over some messages: each is marked, in order; the hook was called
  -- with the keys of those that have a handler; a dead letter was sent for those given up.
  pub record IsConsumed (end : Consumed) (ms : List Message) (s : Session) (r : Session × Consumed)
      : Type 0 where
    pub ends : r.1 ≡ end
    pub all_marked : r.0.marked ≡ s.marked ++ ms
    pub all_completed : r.0.completed ≡ s.completed ++ keys (λ m. on_complete && is_handled m) ms
    pub all_dead : map (λ l. l.key) r.0.dead ≡ map (λ l. l.key) s.dead ++ keys gives_up ms

  hook_lem :
      (m : Message) (h : Handler)
      → lookup m.topic handlers ≡ some h
      → on_complete ≡ (on_complete && is_handled m)
  hook_lem m h found = ground arith

  gives_up_lem :
      (m : Message) (h : Handler) (well : Bool)
      → lookup m.topic handlers ≡ some h
      → well ≡ any (λ i. is_none (h m i)) (attempts 0 (suc (pos_part c.max_retries)))
      → not well ≡ gives_up m
  gives_up_lem m h well found e = ground arith

  unhandled :
      (m : Message) (s : Session)
      → lookup m.topic handlers ≡ none
      → (consume backoff c handlers send on_complete m s ≡ (mark m s, went_on))
        × ((on_complete && is_handled m) ≡ false)
        × (gives_up m ≡ false)
  unfolding consume
  unhandled m s e = (ground arith, ground arith, ground arith)

  -- With a handler, it is what is made of the tries.
  pub handled :
      (m : Message) (h : Handler) (s : Session)
      → lookup m.topic handlers ≡ some h
      → consume backoff c handlers send on_complete m s
        ≡ settle backoff c handlers send on_complete m (process_with_retry backoff c (h m)) s
  unfolding consume
  handled m h s e = ground arith

  buried :
      (m : Message) (e : String) (ds : List ℤ) (s : Session)
      → send m.offset (dead_letter c m e) ≡ none
      → settle backoff c handlers send on_complete m (ended (some e) ds) s ≡ (
        mark m (complete on_complete m (record s { dead = s.dead ++ (dead_letter c m e ∷ []) })),
        went_on,
      )
  unfolding settle
  buried m e ds s sent = ground arith

  settle-IsConsumed :
      (m : Message) (h : Handler) (s : Session)
      → ((o : ℕ) (l : DeadLetter) → send o l ≡ none)
      → lookup m.topic handlers ≡ some h
      → (r : Retried)
      → EndsWithin
          (any (λ i. is_none (h m i)) (attempts 0 (suc (pos_part c.max_retries))))
          (pos_part c.max_retries)
          c.max_backoff
          r
      → IsConsumed went_on (m ∷ []) s (settle backoff c handlers send on_complete m r s)
  unfolding settle
  settle-IsConsumed m h s sent found out_of_fuel ends = absurd ends
  settle-IsConsumed m h s sent found (ended none ds) ends = record {
    ends = refl;
    all_marked = rw (complete_keeps on_complete m s).0 refl;
    all_completed =
        (complete_keeps on_complete m s).2
        ∙ ap (λ b. s.completed ++ (if b then m.key ∷ [] else [])) (hook_lem m h found);
    all_dead =
        ap (map (λ l. l.key)) (complete_keeps on_complete m s).1
        ∙ sym (append-nil (map (λ l. l.key) s.dead))
        ∙ ap (λ b. map (λ l. l.key) s.dead ++ (if b then m.key ∷ [] else []))
            (gives_up_lem m h true found ends.0);
  }
  settle-IsConsumed m h s sent found (ended (some e) ds) ends =
      let t : Session = record s { dead = s.dead ++ (dead_letter c m e ∷ []) } in
      rw (buried m e ds s (sent m.offset (dead_letter c m e))) (record {
        ends = refl;
        all_marked = rw (complete_keeps on_complete m t).0 refl;
        all_completed =
            (complete_keeps on_complete m t).2
            ∙ ap (λ b. s.completed ++ (if b then m.key ∷ [] else [])) (hook_lem m h found);
        all_dead =
            ap (map (λ l. l.key)) (complete_keeps on_complete m t).1
            ∙ map-append (λ l. l.key) s.dead (dead_letter c m e ∷ [])
            ∙ ap (λ b. map (λ l. l.key) s.dead ++ (if b then m.key ∷ [] else []))
                (gives_up_lem m h false found ends.0);
      })

  consume-IsConsumed :
      (m : Message) (s : Session)
      → ((o : ℕ) (l : DeadLetter) → send o l ≡ none)
      → IsConsumed went_on (m ∷ []) s (consume backoff c handlers send on_complete m s)
  consume-IsConsumed m s sent = elim (Option-cases (lookup m.topic handlers)) [
    | inl e ↦ rw (unhandled m s e).0 (record {
      ends = refl;
      all_marked = refl;
      all_completed = rw (unhandled m s e).1 (sym (append-nil s.completed));
      all_dead = rw (unhandled m s e).2 (sym (append-nil (map (λ l. l.key) s.dead)));
    })
    | inr (h, e) ↦
        rw (handled m h s e)
          (settle-IsConsumed m h s sent e _ (process_with_retry-EndsWithin backoff c (h m)))
  ]

  nothing-IsConsumed : (end : Consumed) (s : Session) → IsConsumed end [] s (s, end)
  nothing-IsConsumed end s = record {
    ends = refl;
    all_marked = sym (append-nil s.marked);
    all_completed = sym (append-nil s.completed);
    all_dead = sym (append-nil (map (λ l. l.key) s.dead));
  }

  keys_cons :
      (p : Message → Bool) (m : Message) (ms : List Message)
      → keys p (m ∷ []) ++ keys p ms ≡ keys p (m ∷ ms)
  keys_cons p m ms = ground arith

  then-IsConsumed :
      (end : Consumed) (m : Message) (ms : List Message) (s : Session) (r : Session × Consumed)
      → IsConsumed went_on (m ∷ []) s r
      → (t : Session × Consumed) → IsConsumed end ms r.0 t
      → IsConsumed end (m ∷ ms) s t
  then-IsConsumed end m ms s r one t rest = record {
    ends = rest.ends;
    all_marked = chained s.marked (m ∷ []) ms rest.all_marked one.all_marked refl;
    all_completed =
        chained s.completed (keys (λ m. on_complete && is_handled m) (m ∷ []))
          (keys (λ m. on_complete && is_handled m) ms) rest.all_completed one.all_completed
          (keys_cons (λ m. on_complete && is_handled m) m ms);
    all_dead =
        chained (map (λ l. l.key) s.dead) (keys gives_up (m ∷ [])) (keys gives_up ms) rest.all_dead
          one.all_dead (keys_cons gives_up m ms);
  }

  goes_on :
      (m : Message) (arrivals : List Arrival) (s : Session)
      → (consume backoff c handlers send on_complete m s).1 ≡ went_on
      → consume_claim backoff c handlers send on_complete (arrived m ∷ arrivals) s
        ≡ consume_claim backoff c handlers send on_complete arrivals
            (consume backoff c handlers send on_complete m s).0
  unfolding consume_claim
  goes_on m arrivals s e = ground arith

  -- Where every dead letter can be sent, and whatever the handlers do, ConsumeClaim takes all messages
  -- up to the end of its channel, and returns no error, or up to the end of its session, and returns
  -- the error of the session's context. Each message that it takes is marked once, in order; the
  -- hook, if it is set, is called with the keys of those whose topic has a handler; and a dead letter
  -- goes out, in order, for exactly those whose handler fails at each of its attempts, MaxRetries and
  -- one more.
  pub consume_claim-IsConsumed :
      (arrivals : List Arrival) (s : Session)
      → ((o : ℕ) (l : DeadLetter) → send o l ≡ none)
      → IsConsumed
          (end_of arrivals)
          (before_end arrivals)
          s
          (consume_claim backoff c handlers send on_complete arrivals s)
  unfolding consume_claim
  consume_claim-IsConsumed [] s sent = nothing-IsConsumed went_on s
  consume_claim-IsConsumed (cancelled e ∷ arrivals) s sent = nothing-IsConsumed (returned e) s
  consume_claim-IsConsumed (arrived m ∷ arrivals) s sent =
      let one = consume-IsConsumed m s sent in
      rw (goes_on m arrivals s one.ends) (
        then-IsConsumed (end_of arrivals) m (before_end arrivals) s
          (consume backoff c handlers send on_complete m s) one _
          (consume_claim-IsConsumed arrivals (consume backoff c handlers send on_complete m s).0
            sent))
