-- ===== src/Server/Jobs/Tests.antt =====
-- Jobs of server/handlers.go at concrete inputs.
use mcp_server_dynamodb_sage.Prelude.{
  if◌then◌else◌, ◌↔◌, false, ℕ, ◌+◌, ◌≤◌, String, ◌≡◌, refl, Option, none, some, [], ◌∷◌, arith,
  str_eq,
}
use mcp_server_dynamodb_sage.Server.Store.{
  Write, written, database_error, get_processed_op_result, update_result, delete_where,
}
use mcp_server_dynamodb_sage.Server.Store.Claims.{rows_of}
use mcp_server_dynamodb_sage.Server.Jobs.{
  kafka, in_process, World, Payload, Parsed, parsed, rejected, JobOutcome, job_error, job_result,
  begin_job, end_job, process, process_heavy_op, notify, notice_of,
}
use mcp_server_dynamodb_sage.Server.Jobs.Execute.{
  Answer, answered, failed, text_content, job_payload, ended_well, is_large_operation,
  execute_job_op, execute_job_op_iff,
}
use mcp_server_dynamodb_sage.Server.Jobs.Exclusive.{
  times, IsExclusive, begins, Reach, here, next, jobs_are_exclusive,
}
use mcp_server_dynamodb_sage.Server.Jobs.Delivery.{failure_releases, done_world, success_is_final}

abbrev empty : World
empty = record { claims = []; running = []; completed = []; notices = [] }

abbrev put_job : Payload
put_job = record { table = "users"; operation = "batch_put_items"; input_hash = "h" }

abbrev busy : World
busy = record empty {
  claims =
      record {
        job_id = "j";
        operation = "batch_put_items";
        table_name = "users";
        result_json = "";
        created_at = 100;
      }
      ∷ [];
  running = "j" ∷ [];
}

-- Opens all that a run calls.
run :
    (claim_write end_write : Write)
    → String
    → Parsed
    → ℕ
    → JobOutcome
    → World
    → World × Option String
unfolding process_heavy_op begin_job end_job update_result delete_where str_eq
run = process_heavy_op

runs_once :
    (process_heavy_op written written "j"
      (parsed put_job)
      5
      (job_result (some "{}"))
      empty).0.completed
    ≡ "j" ∷ []
unfolding run
runs_once = refl

rejected_is_reported :
    (process_heavy_op written written "j" (rejected "bad json") 5 (job_result none) empty).1
    ≡ some "bad json"
unfolding run
rejected_is_reported = refl

failure_releases_example :
    process in_process written written "j" (parsed put_job) 5 (job_error "x") empty
    ≡ (notify (notice_of in_process put_job "error" "x") empty, some "x")
failure_releases_example = failure_releases in_process "j" put_job 5 "x" empty refl

success_is_final_example :
    (get_processed_op_result "j" (done_world kafka "j" put_job 5 "{}" empty).claims ≡ "{}")
    × (process in_process database_error written "j"
          (parsed put_job)
          9
          (job_error "x")
          (done_world kafka "j" put_job 5 "{}" empty)
        ≡ (done_world kafka "j" put_job 5 "{}" empty, some "error claiming processed op"))
success_is_final_example =
    success_is_final kafka in_process database_error written "j" put_job (parsed put_job) 5 9 "{}"
      (job_error "x") empty refl

empty-IsExclusive : IsExclusive empty
empty-IsExclusive = record {
  claimed = λ j. omega arith;
  unique = λ j. omega arith;
  settled = λ j. omega arith;
}

abbrev started_world : World
started_world = (begin_job kafka written "j" (parsed put_job) 5 empty).0

two_steps : Reach empty (begin_job in_process written "j" (parsed put_job) 6 started_world).0
two_steps =
    next (next here (begins kafka written "j" (parsed put_job) 5 empty))
      (begins in_process written "j" (parsed put_job) 6 started_world)

jobs_are_exclusive_example :
    let t = (begin_job in_process written "j" (parsed put_job) 6 started_world).0 in
    (times "j" t.running + times "j" t.completed ≤ 1)
    × (times "j" t.running + times "j" t.completed ≤ rows_of "j" t.claims)
    × (rows_of "j" t.claims ≤ 1)
jobs_are_exclusive_example = jobs_are_exclusive "j" empty-IsExclusive two_steps

abbrev stored : Answer
stored = answered (some (record { content = text_content "25 items" ∷ []; is_error = false }))

abbrev answer : String → Answer
answer op = if str_eq op "batch_put_items" then stored else failed "not here"

execute_job_op_iff_example :
    (execute_job_op answer (job_payload "batch_put_items")
      ≡ ended_well (some (record { content = text_content "25 items" ∷ []; is_error = false })))
    ↔ ((answer "batch_put_items" ≡ stored) × (false ≡ false))
unfolding is_large_operation str_eq
execute_job_op_iff_example =
    execute_job_op_iff answer "batch_put_items"
      (some (record { content = text_content "25 items" ∷ []; is_error = false })) refl
