-- ===== src/Server/Gate.antt =====
-- gateGuestToolCalls of server/server.go, and the tool definitions that a role is offered.
pub mod Safety
pub mod Offer
use mcp_server_dynamodb_sage.Prelude.{
  String, Bool, true, false, not, ◌&&◌, Option, none, some, List, [], ◌∷◌, str_eq, if◌then◌else◌,
}
use mcp_server_dynamodb_sage.Server.Auth.{role_admin}
use mcp_server_dynamodb_sage.Server.Tools.{is_read_only_tool}

-- The fields of a JSON-RPC message that the gate decodes.
pub record Message : Type 0 where
  pub method : String
  pub name : String

-- A body as io.ReadAll and encoding/json hand it over. A message that does not decode is `none`.
pub data Body : Type 0 where
  unreadable : Body
  bad_array : Body  -- it begins with `[` and is no JSON array
  array : List (Option Message) → Body
  single : Option Message → Body

-- The messages of a body, and none where the gate gives up on it.
abbrev pub messages : Body → List (Option Message)
messages unreadable = []
messages bad_array = []
messages (array ms) = ms
messages (single m) = m ∷ []

-- The loop over the messages: `true` when none of them is refused.
unfoldable pub pass_messages : List (Option Message) → Bool
pass_messages [] = true
pass_messages (none ∷ ms) = pass_messages ms
pass_messages (some m ∷ ms) =
    if str_eq m.method "tools/call" && not (is_read_only_tool m.name)
    then false
    else pass_messages ms

abbrev pub is_admin : Option String → Bool
is_admin none = false
is_admin (some role) = str_eq role role_admin

-- The role is that of the request's context, where the middleware has put one.
unfoldable pub gate_guest_tool_calls : Option String → Body → Bool
unfolding pass_messages
gate_guest_tool_calls role unreadable = true
gate_guest_tool_calls role bad_array = true
gate_guest_tool_calls role (array ms) = if is_admin role then true else pass_messages ms
gate_guest_tool_calls role (single m) = if is_admin role then true else pass_messages (m ∷ [])

-- A tool definition by its name and the rest of it.
module _ {A : Type 0} where
  -- The loop of GetToolDefsForRole for a role that is not the administrator's.
  unfoldable pub guest_defs : List (String × A) → List (String × A)
  guest_defs [] = []
  guest_defs (d ∷ defs) =
      let rest = guest_defs defs in if is_read_only_tool d.0 then d ∷ rest else rest

  unfoldable pub get_tool_defs_for_role : String → List (String × A) → List (String × A)
  unfolding guest_defs
  get_tool_defs_for_role role defs = if str_eq role role_admin then defs else guest_defs defs
