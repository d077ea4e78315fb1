-- ===== src/Queue.antt =====
-- The worker pool of internal/queue/queue.go. Its goroutines and the callers of Enqueue and Submit
-- interleave: an action is one step of one of them, and a schedule is a list of actions. A job is
-- known by a number. What a job does is with the jobs of the server; its error is only logged.
pub mod Moves
pub mod Schedules
pub mod Counts
pub mod Drain
pub mod Shutdown
pub mod Progress
mod Tests
use mcp_server_dynamodb_sage.Prelude.{
  ℕ, zero, suc, ◌+◌, ◌-◌, Bool, true, false, Option, none, some, List, [], ◌∷◌, ◌++◌, length, ltb,
  if◌then◌else◌,
}

-- A goroutine of Start: at the head of its loop, with a job that the gauge still counts, in a job, or
-- past its m.Done().
pub data Worker : Type 0 where
  idle : Worker
  received_job : ℕ → Worker
  in_job : ℕ → Worker
  done : Worker

-- `unstarted` counts the rounds that Start's loop has left. `waiting` are the jobs of the callers that
-- have counted theirs and are at `m.jobs <- job`; `depth` is the gauge.
pub record Pool : Type 0 where
  pub capacity : ℕ
  pub unstarted : ℕ
  pub waiting : List ℕ
  pub buffer : List ℕ
  pub closed : Bool
  pub workers : List Worker
  pub depth : ℕ

unfoldable pub new : (worker_count buffer : ℕ) → Pool
new worker_count buffer = record {
  capacity = buffer;
  unstarted = worker_count;
  waiting = [];
  buffer = [];
  closed = false;
  workers = [];
  depth = 0;
}

-- What is seen of a step.
pub data Seen : Type 0 where
  asked sent received ended : ℕ → Seen

-- A caller's or a goroutine's next step. `sends` and `meets` name the place of the caller in
-- `waiting`, the others that of a goroutine.
pub data Action : Type 0 where
  starts : Action
  submits : ℕ → Action
  sends : ℕ → Action
  meets : (sender receiver : ℕ) → Action
  takes counts ends leaves : ℕ → Action
  closes : Action

pub data Outcome : Type 0 where
  moved : Pool → List Seen → Outcome
  blocked : Outcome
  panicked : Outcome

abbrev pub get_elem? : {A : Type 0} → List A → ℕ → Option A
get_elem? [] i = none
get_elem? (x ∷ xs) zero = some x
get_elem? (x ∷ xs) (suc i) = get_elem? xs i

abbrev pub set : {A : Type 0} → List A → ℕ → A → List A
set [] i a = []
set (x ∷ xs) zero a = a ∷ xs
set (x ∷ xs) (suc i) a = x ∷ set xs i a

abbrev pub remove : {A : Type 0} → List A → ℕ → List A
remove [] i = []
remove (x ∷ xs) zero = xs
remove (x ∷ xs) (suc i) = x ∷ remove xs i

abbrev pub put_worker : ℕ → Worker → Pool → Pool
put_worker i w p = record p { workers = set p.workers i w }

-- A round of Start's loop.
unfoldable pub start_worker : Pool → ℕ → Outcome
start_worker p zero = blocked
start_worker p (suc n) = moved (record p { unstarted = n; workers = p.workers ++ (idle ∷ []) }) []

-- A send finds room in the buffer, or blocks. On a closed channel it panics.
unfoldable pub send_job : Pool → ℕ → Option ℕ → Outcome
send_job p k none = blocked
send_job p k (some j) =
    if p.closed
    then panicked
    else if ltb (length p.buffer) p.capacity
    then moved (record p { waiting = remove p.waiting k; buffer = p.buffer ++ (j ∷ []) })
        (sent j ∷ [])
    else blocked

-- A receiver that waits at an empty buffer gets the job from the sender.
unfoldable pub hand_over : Pool → ℕ → ℕ → Option ℕ → Option Worker → List ℕ → Outcome
hand_over p k i (some j) (some idle) [] =
    if p.closed
    then panicked
    else moved (put_worker i (received_job j) (record p { waiting = remove p.waiting k }))
        (sent j ∷ received j ∷ [])
hand_over p k i _ _ _ = blocked

unfoldable pub receive_job : Pool → ℕ → Option Worker → List ℕ → Outcome
receive_job p i (some idle) (j ∷ rest) =
    moved (put_worker i (received_job j) (record p { buffer = rest })) (received j ∷ [])
receive_job p i _ _ = blocked

-- metrics.QueueDepth.Dec()
unfoldable pub count_down : Pool → ℕ → Option Worker → Outcome
count_down p i (some (received_job j)) =
    moved (put_worker i (in_job j) (record p { depth = p.depth - 1 })) []
count_down p i _ = blocked

-- The job returns, with or without an error.
unfoldable pub finish_job : Pool → ℕ → Option Worker → Outcome
finish_job p i (some (in_job j)) = moved (put_worker i idle p) (ended j ∷ [])
finish_job p i _ = blocked

-- The range over a closed channel ends once its buffer is empty.
unfoldable pub leave_loop : Pool → ℕ → Option Worker → Bool → List ℕ → Outcome
leave_loop p i (some idle) true [] = moved (put_worker i done p) []
leave_loop p i _ _ _ = blocked

unfoldable pub step : Action → Pool → Outcome
unfolding start_worker send_job hand_over receive_job count_down finish_job leave_loop
step starts p = start_worker p p.unstarted
step (submits j) p =
    moved (record p { waiting = p.waiting ++ (j ∷ []); depth = p.depth + 1 }) (asked j ∷ [])
step (sends k) p = send_job p k (get_elem? p.waiting k)
step (meets k i) p = hand_over p k i (get_elem? p.waiting k) (get_elem? p.workers i) p.buffer
step (takes i) p = receive_job p i (get_elem? p.workers i) p.buffer
step (counts i) p = count_down p i (get_elem? p.workers i)
step (ends i) p = finish_job p i (get_elem? p.workers i)
step (leaves i) p = leave_loop p i (get_elem? p.workers i) p.closed p.buffer
step closes p = if p.closed then panicked else moved (record p { closed = true }) []

abbrev pub seen_first : List Seen → Outcome → Outcome
seen_first es (moved q fs) = moved q (es ++ fs)
seen_first es blocked = blocked
seen_first es panicked = panicked

-- The rest of a schedule after a step.
abbrev pub after_step : Outcome → (Pool → Outcome) → Outcome
after_step (moved q es) rest = seen_first es (rest q)
after_step blocked rest = blocked
after_step panicked rest = panicked

unfoldable pub run : List Action → Pool → Outcome
unfolding step
run [] p = moved p []
run (a ∷ later) p = after_step (step a p) (run later)

-- m.Wait() of Shutdown returns: every goroutine that Start has added is done.
abbrev pub all_done : List Worker → Bool
all_done [] = true
all_done (done ∷ ws) = all_done ws
all_done (_ ∷ ws) = false

unfoldable pub wait_returns : Pool → Bool
wait_returns p = if p.closed then all_done p.workers else false
