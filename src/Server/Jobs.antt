-- ===== src/Server/Jobs.antt =====
-- Background jobs of server/handlers.go: processHeavyOp, which the Kafka consumer calls, and
-- processHeavyOpForQueue, which the in-process workers call. Both claim the job's row, run the
-- job, and record how it ended. What another worker does in between happens at the call of
-- executeJobOp, so each is the composition of what it does before that call and after it.
pub mod Execute
pub mod Exclusive
pub mod Delivery
mod Tests
use mcp_server_dynamodb_sage.Prelude.{
  ℕ, String, Bool, true, false, Option, none, some, List, [], ◌∷◌, str_eq, str_append,
  if◌then◌else◌,
}
use mcp_server_dynamodb_sage.Server.Store.{
  Claims, Write, add_processed_op, update_processed_op_result, delete_claimed_op,
  delete_stale_claimed_ops,
}

pub data Via : Type 0 where
  kafka in_process : Via

-- A notification that was sent: its table, severity, operation, input hash and message.
pub record Notice : Type 0 where
  pub via : Via
  pub table : String
  pub severity : String
  pub operation : String
  pub input_hash : String
  pub message : String

-- The rows of processed_ops_by_job, the jobs that a worker is executing now, the jobs that were
-- executed to success, and the notifications sent, each with the latest first.
pub record World : Type 0 where
  pub claims : Claims
  pub running : List String
  pub completed : List String
  pub notices : List Notice

-- What the payload of a job decodes to.
pub record Payload : Type 0 where
  pub table : String
  pub operation : String
  pub input_hash : String

pub data Parsed : Type 0 where
  parsed : Payload → Parsed
  rejected : String → Parsed

-- How executeJobOp ends: jr.Error, or jr.Result as json.Marshal gives it (`none` if that fails).
pub data JobOutcome : Type 0 where
  job_error : String → JobOutcome
  job_result : Option String → JobOutcome

pub data Begun : Type 0 where
  returned : Option String → Begun  -- before the job, with or without an error
  started : Payload → Begun

abbrev pub notify : Notice → World → World
notify n w = record w { notices = n ∷ w.notices }

-- The notification of a payload that does not parse is sent on the Kafka path alone.
abbrev pub notify_rejected : Via → String → World → World
notify_rejected kafka message w =
    notify
      (record {
        via = kafka;
        table = "unknown";
        severity = "error";
        operation = "unknown_operation";
        input_hash = "";
        message = message;
      })
      w
notify_rejected in_process message w = w

abbrev pub begun : Payload → Option Bool → Begun
begun p none = returned (some "error claiming processed op")
begun p (some true) = started p
begun p (some false) = returned none

-- A worker that has its claim goes on to execute the job.
abbrev pub enter : String → Begun → World → World
enter key (returned _) w = w
enter key (started _) w = record w { running = key ∷ w.running }

-- Up to the call of executeJobOp. The write is that of claimProcessedOp.
unfoldable pub begin_job : Via → Write → String → Parsed → ℕ → World → World × Begun
unfolding add_processed_op
begin_job via write key (rejected e) now w = (notify_rejected via e w, returned (some e))
begin_job via write key (parsed p) now w =
    let (rows, claimed) = add_processed_op write key p.operation p.table "" now w.claims in
    (enter key (begun p claimed) (record w { claims = rows }), begun p claimed)

-- One occurrence of the job leaves the list of those that run.
unfoldable pub leave : String → List String → List String
leave key [] = []
leave key (j ∷ js) = if str_eq j key then js else j ∷ leave key js

-- ConstructMessage, and the fixed message of the in-process path.
abbrev pub success_message : Via → Payload → String
success_message in_process p = "completed"
success_message kafka p = str_append "Job on table \"" (
    str_append p.table (
      str_append "\" for operation \""
        (str_append p.operation "\" has been completed successfully")))

abbrev pub hash_sent : Via → Payload → String
hash_sent kafka p = p.input_hash
hash_sent in_process p = ""

abbrev pub notice_of : Via → Payload → String → String → Notice
notice_of via p severity message = record {
  via = via;
  table = p.table;
  severity = severity;
  operation = p.operation;
  input_hash = hash_sent via p;
  message = message;
}

-- completeProcessedOp: a result that cannot be marshalled, or a write that fails, is only logged.
unfoldable pub complete_processed_op : Write → String → Option String → Claims → Claims
unfolding update_processed_op_result
complete_processed_op write key none rows = rows
complete_processed_op write key (some json) rows =
    (update_processed_op_result write key json rows).0

-- From the return of executeJobOp on. The write is that of deleteClaimedOp or completeProcessedOp.
unfoldable pub end_job : Via → Write → String → Payload → JobOutcome → World → World × Option String
unfolding complete_processed_op delete_claimed_op leave
end_job via write key p (job_error e) w = (
  notify (notice_of via p "error" e) (record w {
    claims = (delete_claimed_op write key w.claims).0;
    running = leave key w.running;
  }),
  some e,
)
end_job via write key p (job_result json) w = (
  notify (notice_of via p "success" (success_message via p)) (record w {
    claims = complete_processed_op write key json w.claims;
    running = leave key w.running;
    completed = key ∷ w.completed;
  }),
  none,
)

-- The two halves with nothing in between.
unfoldable pub process :
    Via
    → (claim_write end_write : Write) → String
    → Parsed
    → ℕ
    → JobOutcome
    → World
    → World × Option String
process via claim_write end_write key payload now outcome w =
    let (w', b) = begin_job via claim_write key payload now w in
    elim b [ returned e ↦ (w', e) | started p ↦ end_job via end_write key p outcome w' ]

unfoldable pub process_heavy_op :
    (claim_write end_write : Write)
    → String
    → Parsed
    → ℕ
    → JobOutcome
    → World
    → World × Option String
unfolding process
process_heavy_op = process kafka

unfoldable pub process_heavy_op_for_queue :
    (claim_write end_write : Write)
    → String
    → Parsed
    → ℕ
    → JobOutcome
    → World
    → World × Option String
unfolding process
process_heavy_op_for_queue = process in_process

-- sweepStaleClaims: the claims that have been open for more than ten minutes.
abbrev pub stale_after : ℕ
stale_after = 600

unfoldable pub sweep_stale_claims : Write → ℕ → World → World
unfolding delete_stale_claimed_ops
sweep_stale_claims write now w = record w {
  claims = (delete_stale_claimed_ops write now stale_after w.claims).0;
}
