-- ===== src/Server/Notifications/Letters.antt =====
-- What parseDLQPayload (server/kafka.go) reads of a notification that became a dead letter.
use mcp_server_dynamodb_sage.Prelude.{◌≡◌, refl, some}
use mcp_server_dynamodb_sage.Prelude.Int.{ℤ}
use mcp_server_dynamodb_sage.Server.Notifications.{
  NotificationPayload, Original, absent, given, letter, parsed, parse_dlq_payload,
}

-- The JSON of a notification: it has no input.
abbrev pub original_of : NotificationPayload → Original
original_of n = record {
  input = absent;
  operation = given n.operation;
  table = given n.table;
  job_id = given n.job_id;
}

-- Of a dead letter that holds a notification, the table and the job are never read, since its JSON
-- is taken for a job's payload without an input: the table is "unknown" and the job's id is empty.
pub notification_letter_is_anonymous :
    (n : NotificationPayload) (retry_count : ℤ)
    → parse_dlq_payload (letter retry_count (some (original_of n)))
      ≡ parsed "unknown" n.operation retry_count ""
unfolding parse_dlq_payload
notification_letter_is_anonymous n retry_count = refl
