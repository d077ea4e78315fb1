-- ===== src/Queue/Tests.antt =====
-- The worker pool of internal/queue/queue.go on concrete schedules.
use mcp_server_dynamodb_sage.Prelude.{ℕ, ◌+◌, ◌≡◌, ◌⊎◌, refl, true, false, List, [], ◌∷◌, arith}
use mcp_server_dynamodb_sage.Queue.{
  Pool, new, Seen, asked, sent, received, ended, Action, starts, submits, sends, takes, counts,
  ends, leaves, closes, received_job, done, moved, panicked, run, wait_returns,
}
use mcp_server_dynamodb_sage.Queue.Counts.{
  total, one, uncounted, held, times_asked, times_ended, run_balance, depth_is_exact,
}
use mcp_server_dynamodb_sage.Queue.Shutdown.{wait_drains}
use mcp_server_dynamodb_sage.Queue.Progress.{work, IsDrained, CanStep, shutdown_ends}

-- Two jobs are submitted to a pool of one worker, which takes the first.
abbrev two_jobs : List Action
two_jobs = starts ∷ submits 7 ∷ submits 8 ∷ sends 0 ∷ sends 0 ∷ takes 0 ∷ []

abbrev two_seen : List Seen
two_seen = asked 7 ∷ asked 8 ∷ sent 7 ∷ sent 8 ∷ received 7 ∷ []

abbrev after_two : Pool
after_two = record {
  capacity = 2;
  unstarted = 0;
  waiting = [];
  buffer = 8 ∷ [];
  closed = false;
  workers = received_job 7 ∷ [];
  depth = 2;
}

two_jobs_moved : run two_jobs (new 1 2) ≡ moved after_two two_seen
unfolding run new
two_jobs_moved = refl

run_balance_example :
    held 8 (new 1 2) + times_asked 8 two_seen ≡ held 8 after_two + times_ended 8 two_seen
run_balance_example = run_balance 8 two_jobs (new 1 2) after_two two_seen two_jobs_moved

depth_is_exact_example : 2 ≡ 0 + 1 + total uncounted (received_job 7 ∷ [])
depth_is_exact_example = depth_is_exact 1 2 two_jobs after_two two_seen two_jobs_moved

abbrev rest : List Action
rest = counts 0 ∷ ends 0 ∷ takes 0 ∷ counts 0 ∷ ends 0 ∷ leaves 0 ∷ []

abbrev rest_seen : List Seen
rest_seen = ended 7 ∷ received 8 ∷ ended 8 ∷ []

abbrev closed_pool : Pool
closed_pool = record after_two { closed = true }

abbrev drained_pool : Pool
drained_pool = record closed_pool { buffer = []; workers = done ∷ []; depth = 0 }

close_moved :
    run (starts ∷ submits 7 ∷ submits 8 ∷ sends 0 ∷ sends 0 ∷ takes 0 ∷ closes ∷ []) (new 1 2)
    ≡ moved closed_pool two_seen
unfolding run new
close_moved = refl

rest_moved : run rest closed_pool ≡ moved drained_pool rest_seen
unfolding run
rest_moved = refl

shutdown_ends_example :
    (work closed_pool ≡ 6 + work drained_pool) × (IsDrained drained_pool ⊎ CanStep drained_pool)
shutdown_ends_example =
    shutdown_ends 1 2 _ rest closed_pool drained_pool two_seen rest_seen (omega arith) close_moved
      refl (tt, (tt, (tt, (tt, (tt, (tt, tt)))))) rest_moved

whole_moved :
    run
      (starts
        ∷ submits 7
        ∷ submits 8
        ∷ sends 0
        ∷ sends 0
        ∷ takes 0
        ∷ closes
        ∷ counts 0
        ∷ ends 0
        ∷ takes 0
        ∷ counts 0
        ∷ ends 0
        ∷ leaves 0
        ∷ [])
      (new 1 2)
    ≡ moved drained_pool
        (asked 7 ∷ asked 8 ∷ sent 7 ∷ sent 8 ∷ received 7 ∷ ended 7 ∷ received 8 ∷ ended 8 ∷ [])
unfolding run new
whole_moved = refl

wait_over : wait_returns drained_pool ≡ true
unfolding wait_returns
wait_over = refl

wait_drains_example :
    (◌≡◌ {A = List ℕ} [] [])
    × (times_asked 8
          (asked 7 ∷ asked 8 ∷ sent 7 ∷ sent 8 ∷ received 7 ∷ ended 7 ∷ received 8 ∷ ended 8 ∷ [])
        ≡ times_ended 8
            (asked 7 ∷ asked 8 ∷ sent 7 ∷ sent 8 ∷ received 7 ∷ ended 7 ∷ received 8 ∷ ended 8 ∷ [])
          + total (one 8) [])
wait_drains_example = wait_drains 8 1 2 _ drained_pool _ whole_moved wait_over (omega arith)

-- A job submitted after the shutdown is a send on a closed channel.
late_submit_panics : run (closes ∷ submits 7 ∷ sends 0 ∷ []) (new 1 2) ≡ panicked
unfolding run new
late_submit_panics = refl

-- A shutdown that comes before Start has run returns at once, with the job in the buffer.
early_shutdown_loses :
    run (submits 7 ∷ sends 0 ∷ closes ∷ []) (new 1 2)
    ≡ moved
        (record {
          capacity = 2;
          unstarted = 1;
          waiting = [];
          buffer = 7 ∷ [];
          closed = true;
          workers = [];
          depth = 1;
        })
        (asked 7 ∷ sent 7 ∷ [])
unfolding run new
early_shutdown_loses = refl
