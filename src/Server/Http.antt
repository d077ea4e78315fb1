-- ===== src/Server/Http.antt =====
-- The HTTP handler of server/server.go behind the middleware of server/auth.go. A request is
-- answered by one of the endpoints below.
pub mod Access
mod Tests
use mcp_server_dynamodb_sage.Prelude.{
  String, Bool, not, ◌&&◌, Option, none, some, str_eq, has_prefix, has_suffix, if◌then◌else◌,
}
use mcp_server_dynamodb_sage.Server.Auth.{Env, Head, is_read_method, is_public_request, token_role}
use mcp_server_dynamodb_sage.Server.Gate.{Body, gate_guest_tool_calls}

pub data Endpoint : Type 0 where
  unauthorized preflight health sse static_files use_post metrics events notifications : Endpoint
  api_health stats tools table_items table_info tables demo spa login clear_chat chat : Endpoint
  method_not_allowed gate_refused mcp : Endpoint

-- The branch of HTTPHandler for GET and HEAD.
unfoldable pub read_endpoint : String → Endpoint
read_endpoint path =
    if has_prefix path "/_next/"
    then static_files
    else if str_eq path "/api/chat"
    then use_post
    else if str_eq path "/api/metrics"
    then metrics
    else if str_eq path "/api/events"
    then events
    else if str_eq path "/api/notifications"
    then notifications
    else if str_eq path "/api/health"
    then api_health
    else if str_eq path "/api/stats"
    then stats
    else if str_eq path "/api/tools"
    then tools
    else if has_prefix path "/api/tables/"
    then (if has_suffix path "/items" then table_items else table_info)
    else if str_eq path "/api/tables"
    then tables
    else if str_eq path "/api/demo"
    then demo
    else spa

-- The rest of HTTPHandler: the gate stands before the MCP handler on the path "/mcp" alone.
unfoldable pub write_endpoint : Option String → Head → Body → Endpoint
write_endpoint role r body =
    if str_eq r.path "/api/login"
    then login
    else if str_eq r.path "/api/chat"
    then (if str_eq r.method "DELETE" then clear_chat else chat)
    else if not (str_eq r.method "POST")
    then method_not_allowed
    else if str_eq r.path "/mcp" && not (gate_guest_tool_calls role body)
    then gate_refused
    else mcp

unfoldable pub http_handler : Option String → Head → Body → Endpoint
http_handler role r body =
    if str_eq r.method "OPTIONS"
    then preflight
    else if str_eq r.path "/health"
    then health
    else if str_eq r.path "/sse"
    then sse
    else if is_read_method r
    then read_endpoint r.path
    else write_endpoint role r body

-- AuthMiddleware around HTTPHandler, as ServeHTTP composes them.
unfoldable pub serve : Env → Head → Body → Endpoint
serve env r body =
    if is_public_request env r then http_handler none r body else elim (token_role env r) [
      | none ↦ unauthorized
      | some role ↦ http_handler (some role) r body
    ]
