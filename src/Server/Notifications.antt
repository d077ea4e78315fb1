-- ===== src/Server/Notifications.antt =====
-- server/notification.go, the notifications of server/store.go, and the dead letters of
-- server/kafka.go. Times are in seconds; the timer that forgets a key is taken to fire on time. The
-- order that SQLite gives rows of the same time, and the text of a number, are parameters.
pub mod Spacing
pub mod Letters
use mcp_server_dynamodb_sage.Prelude.{
  ℕ, ◌+◌, String, Bool, true, false, ◌&&◌, Option, none, some, List, [], ◌∷◌, Assoc, lookup, length,
  take, any, ltb, str_eq, str_append, if◌then◌else◌,
}
use mcp_server_dynamodb_sage.Prelude.Int.{ℤ, pos}

pub record NotificationPayload : Type 0 where
  pub title : String
  pub job_id : String
  pub table : String
  pub severity : String
  pub operation : String
  pub message : String
  pub input_hash : String
  pub timestamp : ℤ

-- A row of the table notifications.
pub record Row : Type 0 where
  pub title : String
  pub job_id : String
  pub table : String
  pub severity : String
  pub operation : String
  pub message : String
  pub timestamp : ℤ

-- The channel of a client, which holds at most `room` notifications.
pub record Client : Type 0 where
  pub room : ℕ
  pub waiting : List NotificationPayload

-- What a notification has reached so far: the keys of the last ones with their times, the clients'
-- channels, the sessions and the screen, and the table.
pub record Board : Type 0 where
  pub seen : List (NotificationPayload × ℕ)
  pub clients : List Client
  pub sent : List NotificationPayload
  pub rows : List Row

-- Equal notifKeys.
abbrev pub same_key : NotificationPayload → NotificationPayload → Bool
same_key m n =
    str_eq m.table n.table && str_eq m.operation n.operation && str_eq m.input_hash n.input_hash

abbrev pub dedup_seconds : ℕ
dedup_seconds = 30

-- A key that was stored less than 30 seconds ago.
abbrev pub blocks_at : ℕ → NotificationPayload → NotificationPayload × ℕ → Bool
blocks_at now n (m, at) = same_key m n && ltb now (at + dedup_seconds)

unfoldable pub is_duplicate_notification :
    ℕ → NotificationPayload → List (NotificationPayload × ℕ) → Bool
is_duplicate_notification now n seen = any (blocks_at now n) seen

-- The `select` of broadcastToSSE: a full channel drops the notification.
unfoldable pub offer : NotificationPayload → Client → Client
offer n c = if ltb (length c.waiting) c.room then record c { waiting = n ∷ c.waiting } else c

unfoldable pub broadcast_to_sse : NotificationPayload → List Client → List Client
unfolding offer
broadcast_to_sse n [] = []
broadcast_to_sse n (c ∷ cs) = offer n c ∷ broadcast_to_sse n cs

abbrev pub max_notifications : ℕ
max_notifications = 100

abbrev pub row_title : String → String
row_title operation = if str_eq operation "" then "Unknown" else operation

abbrev pub row_of : NotificationPayload → Row
row_of n = record {
  title = row_title n.operation;
  job_id = n.job_id;
  table = n.table;
  severity = n.severity;
  operation = n.operation;
  message = n.message;
  timestamp = n.timestamp;
}

module _ (newest_first : List Row → List Row) where
  -- The INSERT, and the DELETE of all rows but the newest.
  unfoldable pub add_notification : NotificationPayload → List Row → List Row
  add_notification n rows = take max_notifications (newest_first (row_of n ∷ rows))

  -- recordNotification, given the payload that it makes.
  unfoldable pub record_notification : NotificationPayload → Board → Board
  unfolding broadcast_to_sse add_notification
  record_notification n b = record b {
    clients = broadcast_to_sse n b.clients;
    rows = add_notification n b.rows;
  }

  -- processNotification on a payload that could be read.
  unfoldable pub process_notification : ℕ → NotificationPayload → Board → Board
  unfolding is_duplicate_notification broadcast_to_sse add_notification
  process_notification now n b = if is_duplicate_notification now n b.seen then b else record {
    seen = (n, now) ∷ b.seen;
    clients = broadcast_to_sse n b.clients;
    sent = n ∷ b.sent;
    rows = add_notification n b.rows;
  }

  -- Notifications in a row, the last one first.
  unfoldable pub process_notifications : List (NotificationPayload × ℕ) → Board → Board
  unfolding process_notification
  process_notifications [] b = b
  process_notifications ((n, now) ∷ earlier) b =
      process_notification now n (process_notifications earlier b)

-- A field of a JSON object: it may be absent, or of another type than Go's struct wants.
pub data Field (A : Type 0) : Type 0 where
  absent : Field A
  given : A → Field A
  mistyped : Field A

-- A value of an input: a text, or something else.
pub data Value : Type 0 where
  text : String → Value
  other : Value

-- The original payload of a dead letter, as far as it is read. The other fields of a notification are
-- taken to have their types.
pub record Original : Type 0 where
  pub input : Field (Assoc Value)
  pub operation : Field String
  pub table : Field String
  pub job_id : Field String

pub data Letter : Type 0 where
  unreadable : Letter
  letter : (retry_count : ℤ) → Option Original → Letter

-- The results of parseDLQPayload, or its panic on a table name that is not a text.
pub data ParsedLetter : Type 0 where
  parsed : (table_name operation : String) → (retry_count : ℤ) → (job_id : String) → ParsedLetter
  parse_panics : ParsedLetter

-- Whether json.Unmarshal takes a field: an absent one keeps its zero value.
abbrev pub fits : {A : Type 0} → Field A → Bool
fits absent = true
fits (given _) = true
fits mistyped = false

abbrev pub or_empty : Field String → String
or_empty absent = ""
or_empty (given s) = s
or_empty mistyped = ""

abbrev pub input_of : Field (Assoc Value) → Assoc Value
input_of absent = []
input_of (given m) = m
input_of mistyped = []

abbrev pub named : ℤ → String → Value → ParsedLetter
named retry_count operation (text s) = parsed s operation retry_count ""
named retry_count operation other = parse_panics

-- The table of a job's input, under either spelling.
unfoldable pub parse_job : ℤ → Original → ParsedLetter
parse_job retry_count o = elim (lookup "tableName" (input_of o.input)) [
  | some v ↦ named retry_count (or_empty o.operation) v
  | none ↦ elim (lookup "TableName" (input_of o.input)) [
    | some v ↦ named retry_count (or_empty o.operation) v
    | none ↦ parsed "unknown" (or_empty o.operation) retry_count ""
  ]
]

-- An original that is not a job's payload: a notification's, or neither.
abbrev pub parse_other : ℤ → Original → ParsedLetter
parse_other retry_count o =
    if fits o.table && fits o.operation && fits o.job_id
    then parsed (or_empty o.table) (or_empty o.operation) retry_count (or_empty o.job_id)
    else parsed "unknown" "unknown" retry_count ""

unfoldable pub parse_dlq_payload : Letter → ParsedLetter
unfolding parse_job
parse_dlq_payload unreadable = parsed "unknown" "unknown" (pos 0) ""
parse_dlq_payload (letter retry_count none) = parsed "unknown" "unknown" retry_count ""
parse_dlq_payload (letter retry_count (some o)) =
    if fits o.input && fits o.operation then parse_job retry_count o else parse_other retry_count o
