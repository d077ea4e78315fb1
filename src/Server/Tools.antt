-- ===== src/Server/Tools.antt =====
-- The tools of the MCP server: the names that server/chat.go dispatches on, and the list of
-- read-only names of server/tools.go.
use mcp_server_dynamodb_sage.Prelude.{
  String, Bool, true, false, Option, List, [], ◌∷◌, any, Assoc, lookup, codes, codes_eq, to_lower,
}

pub data Tool : Type 0 where
  list_tables describe_table scan_table query_table put_item get_item update_item delete_item : Tool
  batch_get_items batch_put_items batch_delete_items create_optimized_table delete_table : Tool
  update_table update_table_ttl read_audit_logs ingest_document search_collection : Tool
  get_job_result : Tool

-- The cases of the `switch` of executeToolByName: the name, the handler, and the argument `risk`
-- that asks for risk analysis first.
abbrev pub tool_table : Assoc (Tool × Bool)
tool_table =
    ("list_tables", (list_tables, false))
    ∷ ("describe_table", (describe_table, false))
    ∷ ("scan_table", (scan_table, true))
    ∷ ("query_table", (query_table, false))
    ∷ ("put_item", (put_item, true))
    ∷ ("get_item", (get_item, false))
    ∷ ("update_item", (update_item, true))
    ∷ ("delete_item", (delete_item, true))
    ∷ ("batch_get_items", (batch_get_items, true))
    ∷ ("batch_put_items", (batch_put_items, true))
    ∷ ("batch_delete_items", (batch_delete_items, true))
    ∷ ("create_optimized_table", (create_optimized_table, true))
    ∷ ("delete_table", (delete_table, true))
    ∷ ("update_table", (update_table, true))
    ∷ ("update_table_ttl", (update_table_ttl, false))
    ∷ ("read_audit_logs", (read_audit_logs, false))
    ∷ ("ingest_document", (ingest_document, true))
    ∷ ("search_collection", (search_collection, false))
    ∷ ("get_job_result", (get_job_result, false))
    ∷ []

-- executeToolByName: `none` is the error "unknown tool".
unfoldable pub tool_by_name : String → Option (Tool × Bool)
tool_by_name name = lookup name tool_table

abbrev pub read_only_tools : List String
read_only_tools =
    "list_tables" ∷ "describe_table" ∷ "scan_table" ∷ "query_table" ∷ "get_item" ∷ "read_audit_logs"
    ∷ "search_collection" ∷ "batch_get_items" ∷ []

-- `readOnlyTools[strings.ToLower(toolName)]`
unfoldable pub is_read_only_tool : String → Bool
is_read_only_tool name = any (λ k. codes_eq (codes k) (to_lower name)) read_only_tools

-- Whether the handler of a tool changes a table, an index or a collection. This is read off the
-- handlers, and not off the list of read-only names.
abbrev pub mutates : Tool → Bool
mutates put_item = true
mutates update_item = true
mutates delete_item = true
mutates batch_put_items = true
mutates batch_delete_items = true
mutates create_optimized_table = true
mutates delete_table = true
mutates update_table = true
mutates update_table_ttl = true
mutates ingest_document = true
mutates _ = false
