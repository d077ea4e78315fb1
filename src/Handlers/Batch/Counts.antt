-- ===== src/Handlers/Batch/Counts.antt =====
-- The numbers of batchPutItems and batchDeleteItems (server/handlers.go) against what DynamoDB
-- accepted. That an answer leaves at most the requests it was asked for unprocessed is what AWS
-- documents of BatchWriteItem.
use mathlib.Core.Path.{subst}
use mcp_server_dynamodb_sage.Prelude.{
  ℕ, zero, suc, ◌+◌, ◌-◌, ◌≤◌, String, ◌≡◌, refl, sym, ap, ◌∙◌, inl, inr, true, false, none, some,
  List, [], ◌∷◌, arith, length, length-append,
}
use mcp_server_dynamodb_sage.Prelude.Chunks.{chunks, concat, chunks_cover}
use mcp_server_dynamodb_sage.Engine.Guardrail.{
  WriteRequest, fits, item_too_large, batch_too_large, validate_batch_size,
}
use mcp_server_dynamodb_sage.Handlers.Effects.{
  error, reply, Requests, Event, writes_batch, Trace, Dynamo, M, Step, returned, goes, ◌>>=◌, ◌>>◌,
  resume, Subject, error_result, fail_audited, record_event, audit, pure,
}
use mcp_server_dynamodb_sage.Handlers.Runs.{Reply-cases}
use mcp_server_dynamodb_sage.Handlers.Batch.{
  total, Sent, size_error, batch_failed, unprocessed, failed, after_try, send, sent, check_size,
  send_chunks, send_all, batch_size,
}

-- How many requests a call took.
abbrev pub taken : Event → ℕ
taken (writes_batch asked (reply left)) = total asked - total left
taken _ = 0

abbrev pub accepted : Trace → ℕ
accepted [] = 0
accepted (e ∷ w) = taken e + accepted w

abbrev lengths : List (List WriteRequest) → ℕ
lengths [] = 0
lengths (b ∷ bs) = length b + lengths bs

lengths-concat : (bs : List (List WriteRequest)) → lengths bs ≡ length (concat bs)
lengths-concat [] = refl
lengths-concat (b ∷ bs) = omega (arith, length-append b (concat bs), lengths-concat bs)

lengths-chunks :
    (rs : List WriteRequest) → lengths (chunks (suc (length rs)) batch_size rs) ≡ length rs
lengths-chunks rs =
    lengths-concat (chunks (suc (length rs)) batch_size rs)
    ∙ ap length (chunks_cover batch_size (suc (length rs)) rs (omega arith) (omega arith)).0

-- What is accepted, which is `base` at least, and what is left unprocessed make `whole`.
abbrev IsAccounted : (base whole : ℕ) → Trace × Sent → Type 0
IsAccounted base whole (w, unprocessed n) = (base ≤ accepted w) × (accepted w + n ≡ whole)
IsAccounted base whole (w, failed e) = Unit

last_try-IsAccounted :
    (base : ℕ) (left : Requests) (w : Trace) (again : Trace × Sent)
    → base ≤ accepted w
    → IsAccounted base (accepted w + total left) (after_try zero left w again)
last_try-IsAccounted base [] w again h = (h, refl)
last_try-IsAccounted base (l ∷ ls) w again h = (h, refl)

after_try-IsAccounted :
    (base k : ℕ) (left : Requests) (w : Trace) (again : Trace × Sent)
    → base ≤ accepted w
    → IsAccounted base (accepted w + total left) again
    → IsAccounted base (accepted w + total left) (after_try (suc k) left w again)
after_try-IsAccounted base k [] w again h next = (h, refl)
after_try-IsAccounted base k (l ∷ ls) w again h next = next

-- A handler that returned early gave an error. One that went on did so with a number of requests
-- left unprocessed, and these and what was accepted, which is `base` at least, make `whole`.
abbrev pub IsDone : (base whole : ℕ) → Trace × Step ℕ → Type 0
IsDone base whole (w, goes n) = (base ≤ accepted w) × (accepted w + n ≡ whole)
IsDone base whole (w, returned r) = r.is_error ≡ true

-- A step that has no request accepted, and that returns early with errors alone.
abbrev pub IsQuiet : {A : Type 0} → Trace → Trace × Step A → Type 0
IsQuiet w (w', goes a) = accepted w' ≡ accepted w
IsQuiet w (w', returned r) = r.is_error ≡ true

quiet-IsDone :
    {A : Type 0} (base whole : ℕ) (w : Trace) (k : A → M ℕ) (p : Trace × Step A)
    → IsQuiet w p
    → ((a : A) (w' : Trace) → accepted w' ≡ accepted w → IsDone base whole (k a w'))
    → IsDone base whole (resume k p)
quiet-IsDone base whole w k (w', goes a) same next = next a w' same
quiet-IsDone base whole w k (w', returned r) is_error next = is_error

resume-IsDone :
    (base : ℕ) {whole : ℕ} (more : ℕ) (k : ℕ → M ℕ) (p : Trace × Step ℕ)
    → IsDone base whole p
    → ((n : ℕ) (w' : Trace)
        → base ≤ accepted w'
        → accepted w' + n ≡ whole
        → IsDone base more (k n w'))
    → IsDone base more (resume k p)
resume-IsDone base more k (w', goes n) done next = next n w' done.0 done.1
resume-IsDone base more k (w', returned r) is_error next = is_error

sent-IsDone :
    (db : Dynamo) (s : Subject) (doing : String) (base whole : ℕ) (p : Trace × Sent)
    → IsAccounted base whole p
    → IsDone base whole (sent db s doing p)
unfolding error_result
sent-IsDone db s doing base whole (w, unprocessed n) h = h
sent-IsDone db s doing base whole (w, failed e) h = refl

check_size-IsQuiet :
    (db : Dynamo) (s : Subject) (doing : String) (b : List WriteRequest) (w : Trace)
    → IsQuiet w (check_size db s doing b w)
unfolding error_result
check_size-IsQuiet db s doing b w =
    elim (validate_batch_size b)
      as (λ c. IsQuiet {A = Unit {0}} w (elim (size_error c) [
        | none ↦ (w, goes tt)
        | some e ↦ fail_audited s (batch_failed db s doing e) w
      ])) [ fits ↦ refl | item_too_large ↦ refl | batch_too_large ↦ refl ]

module _ (db : Dynamo)
    (bounded : (w : Trace) (r left : Requests)
      → db.batch_write w r ≡ reply left
      → total left ≤ total r) where
  send_failed :
      (k : ℕ) (r : Requests) (w : Trace) (e : String)
      → db.batch_write w r ≡ error e
      → send db (suc k) r w ≡ (writes_batch r (error e) ∷ w, failed e)
  unfolding send
  send_failed k r w e h =
      ap
        (λ o. elim o [
          | error e ↦ (writes_batch r (error e) ∷ w, failed e)
          | reply left ↦
              let w' = writes_batch r (reply left) ∷ w in after_try k left w' (send db k left w')
        ])
        h

  send_answered :
      (k : ℕ) (r left : Requests) (w : Trace)
      → db.batch_write w r ≡ reply left
      → send db (suc k) r w
        ≡ after_try k left
            (writes_batch r (reply left) ∷ w)
            (send db k left (writes_batch r (reply left) ∷ w))
  unfolding send
  send_answered k r left w h = ground arith

  -- A try is accounted for when what follows its answer is.
  one_try :
      (base k : ℕ) (r : Requests) (w : Trace)
      → ((left : Requests)
          → let w' = writes_batch r (reply left) ∷ w in
            IsAccounted base (accepted w' + total left) (after_try k left w' (send db k left w')))
      → IsAccounted base (accepted w + total r) (send db (suc k) r w)
  one_try base k r w h = elim (Reply-cases (db.batch_write w r)) [
    | inl (e, fails) ↦
        subst (IsAccounted base (accepted w + total r)) (sym (send_failed k r w e fails)) tt
    | inr (left, answers) ↦
        subst (IsAccounted base (accepted w + total r)) (sym (send_answered k r left w answers)) (
          subst
            (λ whole. IsAccounted base whole (
              after_try k left (writes_batch r (reply left) ∷ w)
                (send db k left (writes_batch r (reply left) ∷ w))))
            (omega (arith, bounded w r left answers)) (h left))
  ]

  send-IsAccounted :
      (base k : ℕ) (r : Requests) (w : Trace)
      → base ≤ accepted w
      → IsAccounted base (accepted w + total r) (send db (suc k) r w)
  send-IsAccounted base zero r w h =
      one_try base zero r w (λ left. last_try-IsAccounted base left _ _ (omega (arith, h)))
  send-IsAccounted base (suc k) r w h = one_try base (suc k) r w (λ left.
      after_try-IsAccounted base k left _ _ (omega (arith, h))
        (send-IsAccounted base k left (writes_batch r (reply left) ∷ w) (omega (arith, h))))

  send_chunks-IsDone :
      (s : Subject) (doing : String) (base : ℕ) (bs : List (List WriteRequest)) (so_far : ℕ)
      (w : Trace)
      → base ≤ accepted w
      → IsDone base (accepted w + (so_far + lengths bs)) (send_chunks db s doing bs so_far w)
  unfolding send_chunks
  send_chunks-IsDone s doing base [] so_far w h = (h, omega arith)
  send_chunks-IsDone s doing base (b ∷ bs) so_far w h =
      quiet-IsDone base (accepted w + (so_far + lengths (b ∷ bs))) w
        (λ _. (λ v. sent db s doing (send db 3 ((s.table, b) ∷ []) v)) >>= λ n.
          send_chunks db s doing bs (so_far + n))
        (check_size db s doing b w) (check_size-IsQuiet db s doing b w)
        (λ _ v same.
          resume-IsDone base (accepted w + (so_far + lengths (b ∷ bs)))
            (λ n. send_chunks db s doing bs (so_far + n))
            (sent db s doing (send db 3 ((s.table, b) ∷ []) v))
            (sent-IsDone db s doing base _ (send db 3 ((s.table, b) ∷ []) v)
              (send-IsAccounted base 2 ((s.table, b) ∷ []) v (omega (arith, same, h))))
            (λ n v' more done.
              subst (λ whole. IsDone base whole (send_chunks db s doing bs (so_far + n) v'))
                (omega (arith, same, done))
                (send_chunks-IsDone s doing base bs (so_far + n) v' more)))

  pub send_all-IsDone :
      (s : Subject) (doing : String) (rs : List WriteRequest) (w : Trace)
      → IsDone (accepted w) (accepted w + length rs) (send_all db s doing rs w)
  unfolding send_all
  send_all-IsDone s doing rs w =
      resume-IsDone (accepted w) (accepted w + length rs)
        (λ n. record_event (audit s.operation s.table s.capacity_type false) >> pure n)
        (send_chunks db s doing (chunks (suc (length rs)) batch_size rs) 0 w)
        (send_chunks-IsDone s doing (accepted w) (chunks (suc (length rs)) batch_size rs) 0 w
          (omega arith))
        (λ n v more done. (omega (arith, more), omega (arith, done, lengths-chunks rs)))
