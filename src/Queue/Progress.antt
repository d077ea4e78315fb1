-- ===== src/Queue/Progress.antt =====
-- Shutdown of internal/queue/queue.go: that m.Wait() returns.
use mcp_server_dynamodb_sage.Prelude.{
  ℕ, zero, suc, ◌+◌, ◌-◌, ◌*◌, ◌≤◌, ◌≡◌, refl, ap, ◌∙◌, ◌⊎◌, inl, inr, true, some, List, [], ◌∷◌,
  ◌++◌, length, All, arith,
}
use mcp_server_dynamodb_sage.Queue.{
  Worker, idle, received_job, in_job, done, Pool, new, Seen, Action, starts, submits, sends, meets,
  takes, counts, ends, leaves, closes, moved, get_elem?, put_worker, received, ended, step, run,
  all_done, wait_returns, start_worker, receive_job, count_down, finish_job, leave_loop,
}
use mcp_server_dynamodb_sage.Queue.Moves.{
  Move, started, submitted, buffered, met, taken, counted, finished, left, shut, step-Move,
}
use mcp_server_dynamodb_sage.Queue.Schedules.{after_step_moved}
use mcp_server_dynamodb_sage.Queue.Counts.{total, total-append, total-set}
use mcp_server_dynamodb_sage.Queue.Drain.{IsStaffed, run-IsStaffed, new-IsStaffed}
use mcp_server_dynamodb_sage.Queue.Shutdown.{done_empty}

-- The steps of Start and its goroutines.
abbrev pub IsOwn : Action → Type 0
IsOwn starts = Unit
IsOwn (submits j) = ⊥
IsOwn (sends k) = ⊥
IsOwn (meets k i) = ⊥
IsOwn (takes i) = Unit
IsOwn (counts i) = Unit
IsOwn (ends i) = Unit
IsOwn (leaves i) = Unit
IsOwn closes = ⊥

-- The steps that a goroutine is from its end, the jobs of the buffer not counted.
abbrev pub steps_left : Worker → ℕ
steps_left idle = 1
steps_left (received_job j) = 3
steps_left (in_job j) = 2
steps_left done = 0

-- The steps that Start and its goroutines have before them, if no more jobs come.
unfoldable pub work : Pool → ℕ
unfolding total
work p = 2 * p.unstarted + 3 * length p.buffer + total steps_left p.workers

Move-work :
    (p q : Pool) (a : Action) (es : List Seen) → IsOwn a → Move p a q es → work p ≡ suc (work q)
unfolding work total
Move-work p _ _ _ own (started n e) =
    omega (arith, e, total-append steps_left p.workers (idle ∷ []))
Move-work p _ _ _ own (submitted j) = absurd own
Move-work p _ _ _ own (buffered k j e open_now room) = absurd own
Move-work p _ _ _ own (met k i j e f empty open_now) = absurd own
Move-work p _ _ _ own (taken i j rest e first) =
    omega
      (arith, ap (λ b. length b) first, total-set steps_left p.workers i idle (received_job j) e)
Move-work p _ _ _ own (counted i j e) =
    omega (arith, total-set steps_left p.workers i (received_job j) (in_job j) e)
Move-work p _ _ _ own (finished i j e) =
    omega (arith, total-set steps_left p.workers i (in_job j) idle e)
Move-work p _ _ _ own (left i e closed empty) =
    omega (arith, total-set steps_left p.workers i idle done e)
Move-work p _ _ _ own (shut e) = absurd own

Move-closed :
    (p q : Pool) (a : Action) (es : List Seen) → IsOwn a → Move p a q es → q.closed ≡ p.closed
Move-closed p _ _ _ own (started n e) = refl
Move-closed p _ _ _ own (submitted j) = refl
Move-closed p _ _ _ own (buffered k j e open_now room) = refl
Move-closed p _ _ _ own (met k i j e f empty open_now) = refl
Move-closed p _ _ _ own (taken i j rest e first) = refl
Move-closed p _ _ _ own (counted i j e) = refl
Move-closed p _ _ _ own (finished i j e) = refl
Move-closed p _ _ _ own (left i e closed empty) = refl
Move-closed p _ _ _ own (shut e) = absurd own

own_run :
    (schedule : List Action) (p r : Pool) (gs : List Seen)
    → All IsOwn schedule
    → run schedule p ≡ moved r gs
    → (work p ≡ length schedule + work r) × (r.closed ≡ p.closed)
unfolding run
own_run [] p r gs own h = (ground (arith, h), ground (arith, h))
own_run (a ∷ later) p r gs own h =
    let (q, es, fs, one_step, others, whole) = after_step_moved (step a p) (run later) r gs h in
    let m = step-Move p q es a one_step in
    let (left_over, same) = own_run later q r fs own.1 others in
    (omega (arith, Move-work p q a es own.0 m, left_over), same ∙ Move-closed p q a es own.0 m)

-- Some goroutine is not at its end, or all are.
busy :
    (ws : List Worker)
    → (all_done ws ≡ true)
      ⊎ ((i : ℕ) × (w : Worker) × (get_elem? ws i ≡ some w) × (1 ≤ steps_left w))
busy [] = inl refl
busy (done ∷ ws) = elim (busy ws) [ inl all ↦ inl all | inr (i, w, e, h) ↦ inr (suc i, w, e, h) ]
busy (idle ∷ ws) = inr (0, idle, refl, omega arith)
busy (received_job j ∷ ws) = inr (0, received_job j, refl, omega arith)
busy (in_job j ∷ ws) = inr (0, in_job j, refl, omega arith)

-- A step that Start or a goroutine can take.
pub record CanStep (p : Pool) : Type 0 where
  pub next : Action
  pub after : Pool
  pub seen : List Seen
  pub own : IsOwn next
  pub moves : step next p ≡ moved after seen

idle-CanStep :
    (p : Pool) (i : ℕ) (b : List ℕ)
    → get_elem? p.workers i ≡ some idle
    → p.closed ≡ true
    → p.buffer ≡ b
    → CanStep p
unfolding step receive_job leave_loop
idle-CanStep p i [] e closed first = record {
  next = leaves i;
  after = put_worker i done p;
  seen = [];
  own = tt;
  moves = ground (arith, e, closed, first);
}
idle-CanStep p i (j ∷ b) e closed first = record {
  next = takes i;
  after = put_worker i (received_job j) (record p { buffer = b });
  seen = received j ∷ [];
  own = tt;
  moves = ground (arith, e, first);
}

worker-CanStep :
    (p : Pool) (i : ℕ) (w : Worker)
    → get_elem? p.workers i ≡ some w
    → p.closed ≡ true
    → 1 ≤ steps_left w
    → CanStep p
unfolding step count_down finish_job
worker-CanStep p i idle e closed h = idle-CanStep p i p.buffer e closed refl
worker-CanStep p i (received_job j) e closed h = record {
  next = counts i;
  after = put_worker i (in_job j) (record p { depth = p.depth - 1 });
  seen = [];
  own = tt;
  moves = ground (arith, e);
}
worker-CanStep p i (in_job j) e closed h = record {
  next = ends i;
  after = put_worker i idle p;
  seen = ended j ∷ [];
  own = tt;
  moves = ground (arith, e);
}
worker-CanStep p i done e closed h = absurd (omega (arith, h))

start-CanStep : (p : Pool) (n : ℕ) → p.unstarted ≡ suc n → CanStep p
unfolding step start_worker
start-CanStep p n e = record {
  next = starts;
  after = record p { unstarted = n; workers = p.workers ++ (idle ∷ []) };
  seen = [];
  own = tt;
  moves = ground (arith, e);
}

-- Every goroutine has been started and is done, and the buffer is empty.
pub record IsDrained (p : Pool) : Type 0 where
  pub all_started : p.unstarted ≡ 0
  pub empty : p.buffer ≡ []
  pub returned : wait_returns p ≡ true

goes_on :
    (workers n : ℕ) (p : Pool)
    → 1 ≤ workers
    → IsStaffed workers p
    → p.closed ≡ true
    → p.unstarted ≡ n
    → IsDrained p ⊎ CanStep p
unfolding wait_returns
goes_on workers (suc n) p some_worker v closed e = inr (start-CanStep p n e)
goes_on workers zero p some_worker v closed e = elim (busy p.workers) [
  | inl all ↦ inl (record {
    all_started = e;
    empty = done_empty p v.orderly all (omega (arith, v.staff, e, some_worker));
    returned = ground (arith, closed, all);
  })
  | inr (i, w, at_i, h) ↦ inr (worker-CanStep p i w at_i closed h)
]

-- A shutdown ends: after the channel of a pool of at least one worker has been closed, whatever was
-- done before, Start and its goroutines can go on until all are done and the buffer is empty, and in
-- whatever order they do, each step brings them one nearer to it.
pub shutdown_ends :
    (workers buffer : ℕ) (before schedule : List Action) (p q : Pool) (ds es : List Seen)
    → 1 ≤ workers
    → run before (new workers buffer) ≡ moved p ds
    → p.closed ≡ true
    → All IsOwn schedule
    → run schedule p ≡ moved q es
    → (work p ≡ length schedule + work q) × (IsDrained q ⊎ CanStep q)
shutdown_ends workers buffer before schedule p q ds es some_worker first closed own h =
    let (left_over, same) = own_run schedule p q es own h in
    let staffed =
      run-IsStaffed workers before (new workers buffer) p ds (new-IsStaffed workers buffer) first in
    (
      left_over,
      goes_on workers q.unstarted q some_worker (run-IsStaffed workers schedule p q es staffed h)
          (same ∙ closed) refl,
    )
