-- ===== src/Queue/Shutdown.antt =====
-- Shutdown of internal/queue/queue.go: what is left once m.Wait() returns.
use mcp_server_dynamodb_sage.Prelude.{
  ℕ, ◌+◌, ◌≤◌, ◌≡◌, refl, ap, inl, inr, true, List, [], ◌∷◌, length, arith,
}
use mcp_server_dynamodb_sage.Queue.{
  Worker, idle, received_job, in_job, done, Pool, new, Seen, Action, moved, run, all_done,
  wait_returns,
}
use mcp_server_dynamodb_sage.Queue.Counts.{
  total, one, has, held, times_asked, times_ended, run_balance,
}
use mcp_server_dynamodb_sage.Queue.Drain.{is_done, IsOrderly, run-IsStaffed, new-IsStaffed}

-- What all goroutines being done says of a measure that is 0 for such a one.
total_done : (w : Worker → ℕ) (ws : List Worker) → w done ≡ 0 → all_done ws ≡ true → total w ws ≡ 0
unfolding total
total_done w [] z h = refl
total_done w (done ∷ ws) z h = omega (arith, z, total_done w ws z h)
total_done w (idle ∷ ws) z h = absurd cc
total_done w (received_job j ∷ ws) z h = absurd cc
total_done w (in_job j ∷ ws) z h = absurd cc

count_done : (ws : List Worker) → all_done ws ≡ true → total is_done ws ≡ length ws
unfolding total
count_done [] h = refl
count_done (done ∷ ws) h = omega (arith, count_done ws h)
count_done (idle ∷ ws) h = absurd cc
count_done (received_job j ∷ ws) h = absurd cc
count_done (in_job j ∷ ws) h = absurd cc

pub done_empty :
    (q : Pool) → IsOrderly q → all_done q.workers ≡ true → 1 ≤ length q.workers → q.buffer ≡ []
done_empty q v h some_worker = elim v.leavers [
  | inl none_left ↦ absurd (omega (arith, count_done q.workers h, none_left, some_worker))
  | inr e ↦ e.1
]

wait_all_done : (q : Pool) → wait_returns q ≡ true → all_done q.workers ≡ true
unfolding wait_returns
wait_all_done q h = ground (arith, h)

-- Once the wait of a shutdown returns, on a new pool that has started a goroutine, the buffer is
-- empty, and each job has ended as often as it was submitted, but for the callers that still wait to
-- send it.
pub wait_drains :
    (k workers buffer : ℕ) (schedule : List Action) (q : Pool) (es : List Seen)
    → run schedule (new workers buffer) ≡ moved q es
    → wait_returns q ≡ true
    → 1 ≤ length q.workers
    → (q.buffer ≡ []) × (times_asked k es ≡ times_ended k es + total (one k) q.waiting)
unfolding held new total
wait_drains k workers buffer schedule q es h returned some_worker =
    let finished_all = wait_all_done q returned in
    let empty =
      done_empty q
        (run-IsStaffed workers schedule (new workers buffer) q es (new-IsStaffed workers buffer)
          h).orderly
        finished_all some_worker in
    (
      empty,
      omega (
        arith,
        run_balance k schedule (new workers buffer) q es h,
        ap (total (one k)) empty,
        total_done (has k) q.workers refl finished_all,
      ),
    )
