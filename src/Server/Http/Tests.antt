-- ===== src/Server/Http/Tests.antt =====
-- Requests to the server of server/server.go at concrete inputs.
use mcp_server_dynamodb_sage.Prelude.{
  ◌≡◌, ◌≢◌, ◌⊎◌, All, refl, false, ◌↔◌, Option, none, some, [], ◌∷◌, any, String, str_eq, is_blank,
  cut_prefix, has_prefix,
}
use mcp_server_dynamodb_sage.Server.Auth.{
  Env, Head, is_public_request, token_role, skip_token_check, role_guest,
}
use mcp_server_dynamodb_sage.Server.Tools.{is_read_only_tool}
use mcp_server_dynamodb_sage.Server.Gate.{
  Message, Body, array, single, messages, gate_guest_tool_calls,
}
use mcp_server_dynamodb_sage.Server.Gate.Safety.{may_write, IsForGuests}
use mcp_server_dynamodb_sage.Server.Http.{
  Endpoint, unauthorized, mcp, gate_refused, write_endpoint, http_handler, serve,
}
use mcp_server_dynamodb_sage.Server.Http.Access.{mcp_without_token, mcp_with_token, mcp_gated}
use mcp_server_dynamodb_sage.Server.Gate.{single}
use Prim.Native.String.{String}
use mathlib.Core.List.{List}

abbrev keys : Env
keys = record { skip_token_check = ""; guest_key = "g-key"; admin_key = "a-key" }

abbrev post : String → String → Head
post path authorization = record {
  method = "POST";
  path = path;
  authorization = authorization;
  query_token = "";
}

abbrev call : String → Option Message
call name = some (record { method = "tools/call"; name = name })

-- Opens all that a run of the server calls.
answer : Env → Head → Body → Endpoint
unfolding serve is_public_request token_role http_handler write_endpoint gate_guest_tool_calls
    is_read_only_tool str_eq is_blank cut_prefix has_prefix
answer = serve

-- TestGateGuestToolCalls: a guest's delete_table is refused on "/mcp", list_tables is not.
guest_write_refused :
    serve keys (post "/mcp" "Bearer g-key") (single (call "delete_table")) ≡ gate_refused
unfolding answer
guest_write_refused = refl

guest_read_passes : serve keys (post "/mcp" "Bearer g-key") (single (call "list_tables")) ≡ mcp
unfolding answer
guest_read_passes = refl

admin_write_passes : serve keys (post "/mcp" "Bearer a-key") (single (call "delete_table")) ≡ mcp
unfolding answer
admin_write_passes = refl

no_token_refused : serve keys (post "/mcp" "") (single (call "list_tables")) ≡ unauthorized
unfolding answer
no_token_refused = refl

mcp_without_token_example :
    (serve keys (post "/api/demo" "") (single (call "delete_table")) ≡ mcp)
    ↔ ((◌≡◌ {A = String} "POST" "POST") × (◌≡◌ {A = String} "/api/demo" "/api/demo"))
unfolding skip_token_check token_role str_eq is_blank cut_prefix
mcp_without_token_example =
    mcp_without_token keys (post "/api/demo" "") (single (call "delete_table")) refl refl

mcp_with_token_example :
    (serve keys (post "/mcp/" "Bearer g-key") (single (call "delete_table")) ≡ mcp) ↔ (
      (◌≡◌ {A = String} "POST" "POST")
      × (◌≢◌ {A = String} "/mcp/" "/health")
      × (◌≢◌ {A = String} "/mcp/" "/sse")
      × (◌≢◌ {A = String} "/mcp/" "/api/login")
      × (◌≢◌ {A = String} "/mcp/" "/api/chat")
      × ((◌≢◌ {A = String} "/mcp/" "/mcp")
          ⊎ (◌≡◌ {A = String} "guest" "admin")
          ⊎ All IsForGuests (call "delete_table" ∷ [])))
unfolding skip_token_check token_role str_eq is_blank cut_prefix
mcp_with_token_example =
    mcp_with_token keys (post "/mcp/" "Bearer g-key") (single (call "delete_table")) role_guest refl
      refl

abbrev reads : Body
reads = array (none ∷ call "list_tables" ∷ call "get_item" ∷ [])

mcp_gated_example : any may_write (messages reads) ≡ false
unfolding answer
mcp_gated_example = mcp_gated keys (post "/mcp" "Bearer g-key") reads refl refl refl tt refl

abbrev defs : List (String × String)
defs = ("get_item", "reads an item") ∷ ("put_item", "writes an item") ∷ []
