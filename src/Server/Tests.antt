-- ===== src/Server/Tests.antt =====
-- The notifications, the writer and the chat of server/ at concrete inputs.
use mcp_server_dynamodb_sage.Prelude.{
  ℕ, ◌+◌, ◌⊎◌, Bool, String, ◌≡◌, refl, inl, inr, str_eq, Option, none, some, List, [], ◌∷◌, ltb,
  if◌then◌else◌, ◌≤◌,
}
use mcp_server_dynamodb_sage.Prelude.Int.{pos}
use mcp_server_dynamodb_sage.Server.Tools.{Tool, tool_by_name}
use mcp_server_dynamodb_sage.Server.Chat.{
  ToolCall, LlmMessage, build_chat_history, generate_chat, execute_tool_by_name,
}
use mcp_server_dynamodb_sage.Server.Chat.Protocol.{AreAnswered, generate_chat-AreAnswered}
use mcp_server_dynamodb_sage.Server.Notifications.{
  NotificationPayload, Row, Board, letter, parsed, parse_dlq_payload,
}
use mcp_server_dynamodb_sage.Server.Notifications.Letters.{
  original_of, notification_letter_is_anonymous,
}
use mcp_server_dynamodb_sage.Server.Store.Writer.{IsCarriedOut, write, write-IsCarriedOut}

abbrev failure : NotificationPayload
failure = record {
  title = "delete_table on orders";
  job_id = "1";
  table = "orders";
  severity = "error";
  operation = "delete_table";
  message = "throttled";
  input_hash = "ab";
  timestamp = pos 100;
}

abbrev success : NotificationPayload
success = record failure {
  job_id = "2";
  severity = "success";
  message = "done";
  timestamp = pos 110;
}

-- All rows are of different times here.
abbrev newest_first : List Row → List Row
newest_first rows = rows

abbrev empty_board : Board
empty_board = record { seen = []; clients = []; sent = []; rows = [] }

notification_letter_is_anonymous_example :
    parse_dlq_payload (letter (pos 3) (some (original_of failure)))
    ≡ parsed "unknown" "delete_table" (pos 3) ""
notification_letter_is_anonymous_example = notification_letter_is_anonymous failure (pos 3)

-- The database is busy on the first two tries.
abbrev busy_twice : ℕ → Option String
busy_twice n = if ltb n 2 then some "SQLITE_BUSY (5)" else none

write-IsCarriedOut_example :
    IsCarriedOut busy_twice 9 (write busy_twice) × ((write busy_twice).slept ≤ 2250)
write-IsCarriedOut_example = write-IsCarriedOut busy_twice

-- A model that asks for one tool, and has no more to say when it has the result.
abbrev asks_once : ℕ → List LlmMessage → List ToolCall ⊎ String
asks_once w [] = inl []
asks_once w (m ∷ []) = inl (record { id = "t1"; name = "list_tables"; arguments = none } ∷ [])
asks_once w (m ∷ n ∷ ms) = inl []

abbrev counts : ℕ → Tool × Bool → Option String → ℕ × (String ⊎ String)
counts w tool arguments = (w + 1, inl "[]")

generate_chat-AreAnswered_example :
    AreAnswered 10
      (generate_chat counts asks_once 0 (build_chat_history "hello" (inr "closed"))).requests
generate_chat-AreAnswered_example =
    generate_chat-AreAnswered counts asks_once 0 "hello" (inr "closed")

chat_runs_tool :
    (generate_chat counts asks_once 0 (build_chat_history "hello" (inr "closed"))).world ≡ 1
unfolding generate_chat build_chat_history execute_tool_by_name tool_by_name str_eq
chat_runs_tool = refl
