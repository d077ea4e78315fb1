-- ===== src/Queue/Counts.antt =====
-- Every job of the pool of internal/queue/queue.go, counted: where it is, and what was done with it.
use mcp_server_dynamodb_sage.Prelude.{
  ℕ, zero, suc, ◌+◌, ◌≡◌, refl, ap, some, List, [], ◌∷◌, ◌++◌, length, ◌==◌, if◌then◌else◌, arith,
  length-append,
}
use mcp_server_dynamodb_sage.Queue.{
  Worker, idle, received_job, in_job, done, Pool, new, Seen, asked, sent, received, ended, Action,
  moved, get_elem?, set, remove, run,
}
use mcp_server_dynamodb_sage.Queue.Moves.{
  Move, started, submitted, buffered, met, taken, counted, finished, left, shut, step-Move,
}
use mcp_server_dynamodb_sage.Queue.Schedules.{run_induction}

-- A measure of the elements of a list, added up.
unfoldable pub total : {A : Type 0} → (A → ℕ) → List A → ℕ
total w [] = 0
total w (x ∷ xs) = w x + total w xs

module _ {A : Type 0} (w : A → ℕ) where
  pub total-append : (xs ys : List A) → total w (xs ++ ys) ≡ total w xs + total w ys
  unfolding total
  total-append [] ys = omega arith
  total-append (x ∷ xs) ys = omega (arith, total-append xs ys)

  pub total-set :
      (xs : List A) (i : ℕ) (a b : A)
      → get_elem? xs i ≡ some a
      → total w (set xs i b) + w a ≡ total w xs + w b
  unfolding total
  total-set [] i a b h = absurd cc
  total-set (x ∷ xs) zero a b h = ground (arith, h)
  total-set (x ∷ xs) (suc i) a b h = omega (arith, total-set xs i a b h)

  pub total-remove :
      (xs : List A) (i : ℕ) (a : A)
      → get_elem? xs i ≡ some a
      → total w (remove xs i) + w a ≡ total w xs
  unfolding total
  total-remove [] i a h = absurd cc
  total-remove (x ∷ xs) zero a h = ground (arith, h)
  total-remove (x ∷ xs) (suc i) a h = omega (arith, total-remove xs i a h)

-- One for the job `k`.
abbrev pub one : ℕ → ℕ → ℕ
one k j = if j == k then 1 else 0

-- Whether a goroutine has the job `k`.
abbrev pub has : ℕ → Worker → ℕ
has k idle = 0
has k (received_job j) = one k j
has k (in_job j) = one k j
has k done = 0

-- How often the job `k` is in the pool.
unfoldable pub held : ℕ → Pool → ℕ
unfolding total
held k p = total (one k) p.waiting + total (one k) p.buffer + total (has k) p.workers

abbrev pub asks : ℕ → Seen → ℕ
asks k (asked j) = one k j
asks k (sent j) = 0
asks k (received j) = 0
asks k (ended j) = 0

abbrev pub end_of_job : ℕ → Seen → ℕ
end_of_job k (asked j) = 0
end_of_job k (sent j) = 0
end_of_job k (received j) = 0
end_of_job k (ended j) = one k j

-- How often it was submitted, and how often it ended.
unfoldable pub times_asked : ℕ → List Seen → ℕ
unfolding total
times_asked k es = total (asks k) es

unfoldable pub times_ended : ℕ → List Seen → ℕ
unfolding total
times_ended k es = total (end_of_job k) es

abbrev Balance : ℕ → Pool → List Seen → Pool → Type 0
Balance k p es q = held k p + times_asked k es ≡ held k q + times_ended k es

Move-Balance : (k : ℕ) (p q : Pool) (a : Action) (es : List Seen) → Move p a q es → Balance k p es q
unfolding held times_asked times_ended total
Move-Balance k p _ _ _ (started n e) = omega (arith, total-append (has k) p.workers (idle ∷ []))
Move-Balance k p _ _ _ (submitted j) = omega (arith, total-append (one k) p.waiting (j ∷ []))
Move-Balance k p _ _ _ (buffered i j e closed room) =
    omega (arith, total-remove (one k) p.waiting i j e, total-append (one k) p.buffer (j ∷ []))
Move-Balance k p _ _ _ (met s i j e f empty closed) = omega (
  arith,
  total-remove (one k) p.waiting s j e,
  total-set (has k) p.workers i idle (received_job j) f,
)
Move-Balance k p _ _ _ (taken i j rest e first) =
    rw first (omega (arith, total-set (has k) p.workers i idle (received_job j) e))
Move-Balance k p _ _ _ (counted i j e) =
    omega (arith, total-set (has k) p.workers i (received_job j) (in_job j) e)
Move-Balance k p _ _ _ (finished i j e) =
    omega (arith, total-set (has k) p.workers i (in_job j) idle e)
Move-Balance k p _ _ _ (left i e closed empty) =
    omega (arith, total-set (has k) p.workers i idle done e)
Move-Balance k p _ _ _ (shut e) = refl

times-append :
    (k : ℕ) (es fs : List Seen)
    → (times_asked k (es ++ fs) ≡ times_asked k es + times_asked k fs)
      × (times_ended k (es ++ fs) ≡ times_ended k es + times_ended k fs)
unfolding times_asked times_ended
times-append k es fs = (total-append (asks k) es fs, total-append (end_of_job k) es fs)

-- Whatever the schedule, no job is lost and none is run twice: a job is in the pool and has ended, all
-- in all, as often as it was there before and was submitted since.
pub run_balance :
    (k : ℕ) (schedule : List Action) (p q : Pool) (es : List Seen)
    → run schedule p ≡ moved q es
    → held k p + times_asked k es ≡ held k q + times_ended k es
unfolding times_asked times_ended total
run_balance k schedule p q es h =
    run_induction (Balance k) (λ p. refl)
      (λ a p q r es fs one rest.
        omega (arith, times-append k es fs, Move-Balance k p q a es (step-Move p q es a one), rest))
      schedule p q es h

-- A job that the gauge still counts though a goroutine has it.
abbrev pub uncounted : Worker → ℕ
uncounted idle = 0
uncounted (received_job j) = 1
uncounted (in_job j) = 0
uncounted done = 0

-- The gauge, against the jobs that are not yet taken off it.
pub record IsGauged (p : Pool) : Type 0 where
  pub gauge : p.depth ≡ length p.waiting + length p.buffer + total uncounted p.workers

length-remove :
    (xs : List ℕ) (i j : ℕ) → get_elem? xs i ≡ some j → length (remove xs i) + 1 ≡ length xs
length-remove [] i j h = absurd cc
length-remove (x ∷ xs) zero j h = omega arith
length-remove (x ∷ xs) (suc i) j h = omega (arith, length-remove xs i j h)

Move-IsGauged : (p q : Pool) (a : Action) (es : List Seen) → IsGauged p → Move p a q es → IsGauged q
unfolding total
Move-IsGauged p _ _ _ v (started n e) = record {
  gauge = omega (arith, v.gauge, total-append uncounted p.workers (idle ∷ []));
}
Move-IsGauged p _ _ _ v (submitted j) = record {
  gauge = omega (arith, v.gauge, length-append p.waiting (j ∷ []));
}
Move-IsGauged p _ _ _ v (buffered k j e closed room) = record {
  gauge = omega (arith, v.gauge, length-remove p.waiting k j e, length-append p.buffer (j ∷ []));
}
Move-IsGauged p _ _ _ v (met k i j e f empty closed) = record {
  gauge = omega (
    arith,
    v.gauge,
    length-remove p.waiting k j e,
    total-set uncounted p.workers i idle (received_job j) f,
  );
}
Move-IsGauged p _ _ _ v (taken i j rest e first) = record {
  gauge = omega (
    arith,
    v.gauge,
    ap (λ b. length b) first,
    total-set uncounted p.workers i idle (received_job j) e,
  );
}
Move-IsGauged p _ _ _ v (counted i j e) = record {
  gauge = omega (arith, v.gauge, total-set uncounted p.workers i (received_job j) (in_job j) e);
}
Move-IsGauged p _ _ _ v (finished i j e) = record {
  gauge = omega (arith, v.gauge, total-set uncounted p.workers i (in_job j) idle e);
}
Move-IsGauged p _ _ _ v (left i e closed empty) = record {
  gauge = omega (arith, v.gauge, total-set uncounted p.workers i idle done e);
}
Move-IsGauged p _ _ _ v (shut e) = record { gauge = v.gauge }

-- Whatever the schedule of a new pool, the gauge of its depth is the number of jobs that callers wait
-- with, that are in the buffer, and that a goroutine has received and not yet taken off the gauge.
pub depth_is_exact :
    (workers buffer : ℕ) (schedule : List Action) (q : Pool) (es : List Seen)
    → run schedule (new workers buffer) ≡ moved q es
    → q.depth ≡ length q.waiting + length q.buffer + total uncounted q.workers
unfolding new total
depth_is_exact workers buffer schedule q es h =
    (run_induction (λ p es q. IsGauged p → IsGauged q) (λ p v. v)
      (λ a p q r es fs one rest v. rest (Move-IsGauged p q a es v (step-Move p q es a one)))
      schedule (new workers buffer) q es h (record { gauge = refl })).gauge
