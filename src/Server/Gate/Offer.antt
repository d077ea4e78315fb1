-- ===== src/Server/Gate/Offer.antt =====
-- The tools that a role is offered (GetToolDefsForRole of server/tools.go) against the calls that the
-- gate of server/server.go lets through.
use mcp_server_dynamodb_sage.Prelude.{
  String, ◌≡◌, refl, Bool, ◌&&◌, some, List, [], ◌∷◌, any, arith, str_eq, str_eq_iff, str_eq_refl,
  ap, Bool-cases, inl, inr,
}
use mcp_server_dynamodb_sage.Server.Tools.{is_read_only_tool}
use mcp_server_dynamodb_sage.Server.Gate.{
  Message, single, pass_messages, gate_guest_tool_calls, guest_defs, get_tool_defs_for_role,
}

-- The message that calls a tool.
abbrev pub call : String → Message
call name = record { method = "tools/call"; name = name }

abbrev pub is_listed : {A : Type 0} → String → List (String × A) → Bool
is_listed name defs = any (λ d. str_eq d.0 name) defs

guest_defs_listed :
    {A : Type 0} (name : String) (defs : List (String × A))
    → is_listed name (guest_defs defs) ≡ (is_listed name defs && is_read_only_tool name)
unfolding guest_defs
guest_defs_listed name [] = refl
guest_defs_listed name (d ∷ defs) = elim (Bool-cases (str_eq d.0 name)) [
  | inl e ↦
      ground
        (arith, guest_defs_listed name defs, e, ap is_read_only_tool ((str_eq_iff d.0 name).0 e))
  | inr e ↦ ground (arith, guest_defs_listed name defs, e)
]

-- A role is offered exactly those of the defined tools whose call by that role passes the gate.
offered_is_admitted :
    {A : Type 0} (role name : String) (defs : List (String × A))
    → is_listed name (get_tool_defs_for_role role defs)
      ≡ (is_listed name defs && gate_guest_tool_calls (some role) (single (some (call name))))
unfolding get_tool_defs_for_role gate_guest_tool_calls pass_messages
offered_is_admitted role name defs =
    ground (arith, guest_defs_listed name defs, str_eq_refl "tools/call")
