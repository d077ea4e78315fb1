-- ===== src/Queue/Moves.antt =====
-- The steps of the pool of internal/queue/queue.go that are neither blocked nor a panic, as a relation:
-- the conditions of each action, and what it makes of the pool.
use mathlib.Core.Path.{subst₂}
use mcp_server_dynamodb_sage.Prelude.{
  ℕ, zero, suc, ◌+◌, ◌-◌, ◌<◌, ◌≡◌, refl, Bool, true, false, Option, none, some, List, [], ◌∷◌,
  ◌++◌, length, arith, ltb, ltb→lt,
}
use mcp_server_dynamodb_sage.Queue.{
  Worker, idle, received_job, in_job, done, Pool, Seen, asked, sent, received, ended, Action,
  starts, submits, sends, meets, takes, counts, ends, leaves, closes, moved, get_elem?, remove,
  put_worker, start_worker, send_job, hand_over, receive_job, count_down, finish_job, leave_loop,
  step,
}

pub data Move (p : Pool) : Action → Pool → List Seen → Type 0 where
  started :
      (n : ℕ)
      → p.unstarted ≡ suc n
      → Move p starts (record p { unstarted = n; workers = p.workers ++ (idle ∷ []) }) []
  submitted :
      (j : ℕ)
      → Move p
          (submits j)
          (record p { waiting = p.waiting ++ (j ∷ []); depth = p.depth + 1 })
          (asked j ∷ [])
  buffered :
      (k j : ℕ)
      → get_elem? p.waiting k ≡ some j
      → p.closed ≡ false
      → length p.buffer < p.capacity
      → Move p
          (sends k)
          (record p { waiting = remove p.waiting k; buffer = p.buffer ++ (j ∷ []) })
          (sent j ∷ [])
  met :
      (k i j : ℕ)
      → get_elem? p.waiting k ≡ some j
      → get_elem? p.workers i ≡ some idle
      → p.buffer ≡ []
      → p.closed ≡ false
      → Move p
          (meets k i)
          (put_worker i (received_job j) (record p { waiting = remove p.waiting k }))
          (sent j ∷ received j ∷ [])
  taken :
      (i j : ℕ) (rest : List ℕ)
      → get_elem? p.workers i ≡ some idle
      → p.buffer ≡ j ∷ rest
      → Move p
          (takes i)
          (put_worker i (received_job j) (record p { buffer = rest }))
          (received j ∷ [])
  counted :
      (i j : ℕ)
      → get_elem? p.workers i ≡ some (received_job j)
      → Move p (counts i) (put_worker i (in_job j) (record p { depth = p.depth - 1 })) []
  finished :
      (i j : ℕ)
      → get_elem? p.workers i ≡ some (in_job j)
      → Move p (ends i) (put_worker i idle p) (ended j ∷ [])
  left :
      (i : ℕ)
      → get_elem? p.workers i ≡ some idle
      → p.closed ≡ true
      → p.buffer ≡ []
      → Move p (leaves i) (put_worker i done p) []
  shut : p.closed ≡ false → Move p closes (record p { closed = true }) []

module _ (p q : Pool) (es : List Seen) where
  -- A pool and what was seen that are what a move gives.
  result :
      (a : Action) (r : Pool) (fs : List Seen)
      → Move p a r fs
      → moved r fs ≡ moved q es
      → Move p a q es
  result a r fs m h = subst₂ (Move p a) (cc (h)) (cc (h)) m

  start_worker-Move : (n : ℕ) → p.unstarted ≡ n → start_worker p n ≡ moved q es → Move p starts q es
  unfolding start_worker
  start_worker-Move zero e h = absurd cc
  start_worker-Move (suc n) e h = result _ _ _ (started n e) h

  send_job-Move :
      (k : ℕ) (o : Option ℕ) (c b : Bool)
      → get_elem? p.waiting k ≡ o
      → p.closed ≡ c
      → ltb (length p.buffer) p.capacity ≡ b
      → send_job p k o ≡ moved q es
      → Move p (sends k) q es
  unfolding send_job
  send_job-Move k none c b e closed room h = absurd cc
  send_job-Move k (some j) true b e closed room h = absurd (ground (arith, h, closed))
  send_job-Move k (some j) false true e closed room h =
      result _ _ _ (buffered k j e closed (ltb→lt _ _ room)) (ground (arith, h, closed, room))
  send_job-Move k (some j) false false e closed room h = absurd (ground (arith, h, closed, room))

  hand_over-Move :
      (k i : ℕ) (o : Option ℕ) (w : Option Worker) (b : List ℕ) (c : Bool)
      → get_elem? p.waiting k ≡ o
      → get_elem? p.workers i ≡ w
      → p.buffer ≡ b
      → p.closed ≡ c
      → hand_over p k i o w b ≡ moved q es
      → Move p (meets k i) q es
  unfolding hand_over
  hand_over-Move k i (some j) (some idle) [] false e f empty closed h =
      result _ _ _ (met k i j e f empty closed) (ground (arith, h, closed))
  hand_over-Move k i (some j) (some idle) [] true e f empty closed h =
      absurd (ground (arith, h, closed))
  hand_over-Move k i (some j) (some idle) (x ∷ b) c e f empty closed h = absurd cc
  hand_over-Move k i (some j) (some (received_job x)) b c e f empty closed h = absurd cc
  hand_over-Move k i (some j) (some (in_job x)) b c e f empty closed h = absurd cc
  hand_over-Move k i (some j) (some done) b c e f empty closed h = absurd cc
  hand_over-Move k i (some j) none b c e f empty closed h = absurd cc
  hand_over-Move k i none w b c e f empty closed h = absurd cc

  receive_job-Move :
      (i : ℕ) (w : Option Worker) (b : List ℕ)
      → get_elem? p.workers i ≡ w
      → p.buffer ≡ b
      → receive_job p i w b ≡ moved q es
      → Move p (takes i) q es
  unfolding receive_job
  receive_job-Move i (some idle) (j ∷ b) e f h = result _ _ _ (taken i j b e f) h
  receive_job-Move i (some idle) [] e f h = absurd cc
  receive_job-Move i (some (received_job x)) b e f h = absurd cc
  receive_job-Move i (some (in_job x)) b e f h = absurd cc
  receive_job-Move i (some done) b e f h = absurd cc
  receive_job-Move i none b e f h = absurd cc

  count_down-Move :
      (i : ℕ) (w : Option Worker)
      → get_elem? p.workers i ≡ w
      → count_down p i w ≡ moved q es
      → Move p (counts i) q es
  unfolding count_down
  count_down-Move i (some (received_job j)) e h = result _ _ _ (counted i j e) h
  count_down-Move i (some idle) e h = absurd cc
  count_down-Move i (some (in_job x)) e h = absurd cc
  count_down-Move i (some done) e h = absurd cc
  count_down-Move i none e h = absurd cc

  finish_job-Move :
      (i : ℕ) (w : Option Worker)
      → get_elem? p.workers i ≡ w
      → finish_job p i w ≡ moved q es
      → Move p (ends i) q es
  unfolding finish_job
  finish_job-Move i (some (in_job j)) e h = result _ _ _ (finished i j e) h
  finish_job-Move i (some idle) e h = absurd cc
  finish_job-Move i (some (received_job x)) e h = absurd cc
  finish_job-Move i (some done) e h = absurd cc
  finish_job-Move i none e h = absurd cc

  leave_loop-Move :
      (i : ℕ) (w : Option Worker) (c : Bool) (b : List ℕ)
      → get_elem? p.workers i ≡ w
      → p.closed ≡ c
      → p.buffer ≡ b
      → leave_loop p i w c b ≡ moved q es
      → Move p (leaves i) q es
  unfolding leave_loop
  leave_loop-Move i (some idle) true [] e closed empty h = result _ _ _ (left i e closed empty) h
  leave_loop-Move i (some idle) true (x ∷ b) e closed empty h = absurd cc
  leave_loop-Move i (some idle) false b e closed empty h = absurd cc
  leave_loop-Move i (some (received_job x)) c b e closed empty h = absurd cc
  leave_loop-Move i (some (in_job x)) c b e closed empty h = absurd cc
  leave_loop-Move i (some done) c b e closed empty h = absurd cc
  leave_loop-Move i none c b e closed empty h = absurd cc

  close-Move : (c : Bool) → p.closed ≡ c → step closes p ≡ moved q es → Move p closes q es
  unfolding step
  close-Move true e h = absurd (ground (arith, h, e))
  close-Move false e h = result _ _ _ (shut e) (ground (arith, h, e))

  pub step-Move : (a : Action) → step a p ≡ moved q es → Move p a q es
  unfolding step
  step-Move starts h = start_worker-Move p.unstarted refl h
  step-Move (submits j) h = result _ _ _ (submitted j) h
  step-Move (sends k) h = send_job-Move k _ _ _ refl refl refl h
  step-Move (meets k i) h = hand_over-Move k i _ _ _ _ refl refl refl refl h
  step-Move (takes i) h = receive_job-Move i _ _ refl refl h
  step-Move (counts i) h = count_down-Move i _ refl h
  step-Move (ends i) h = finish_job-Move i _ refl h
  step-Move (leaves i) h = leave_loop-Move i _ _ _ refl refl refl h
  step-Move closes h = close-Move p.closed refl h
