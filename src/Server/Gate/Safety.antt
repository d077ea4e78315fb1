-- ===== src/Server/Gate/Safety.antt =====
-- What the gate of server/server.go lets through: no call of a tool that writes.
use mcp_server_dynamodb_sage.Prelude.{
  String, ◌≡◌, ◌≢◌, ◌↔◌, refl, Bool, false, Option, none, some, List, [], ◌∷◌, All, any, str_eq,
  ◌&&◌, Bool-cases, if◌then◌else◌, Option-cases, lookup-All, inl, inr, arith, str_eq_iff, ◌⊎◌, true,
}
use mcp_server_dynamodb_sage.Server.Tools.{
  Tool, mutates, tool_table, tool_by_name, is_read_only_tool,
}
use mcp_server_dynamodb_sage.Server.Auth.{role_admin}
use mcp_server_dynamodb_sage.Server.Gate.{
  Message, Body, unreadable, bad_array, array, single, messages, pass_messages, is_admin,
  gate_guest_tool_calls,
}

-- A tool whose name is on the read-only list has a handler that does not write.
pub read_only-mutates :
    (name : String) {t : Tool} {risk : Bool}
    → tool_by_name name ≡ some (t, risk)
    → is_read_only_tool name ≡ true
    → mutates t ≡ false
unfolding tool_by_name is_read_only_tool
read_only-mutates name {t} {risk} found =
    lookup-All (λ k e. is_read_only_tool k ≡ true → mutates e.0 ≡ false) name tool_table found
      (ground arith)

-- The message calls a tool, and the handler that it is dispatched to writes.
abbrev pub may_write : Option Message → Bool
may_write none = false
may_write (some m) =
    str_eq m.method "tools/call"
    && elim (tool_by_name m.name) [ none ↦ false | some (t, _) ↦ mutates t ]

abbrev pub IsDecoded : Body → Type 0
IsDecoded unreadable = ⊥
IsDecoded bad_array = ⊥
IsDecoded _ = Unit

may_write_of_read_only :
    (m : Message) → is_read_only_tool m.name ≡ true → may_write (some m) ≡ false
may_write_of_read_only m h = elim (Option-cases (tool_by_name m.name)) [
  | inl e ↦ ground arith
  | inr ((t, risk), e) ↦ ground (arith, read_only-mutates m.name e h)
]

may_write-pass_messages :
    (ms : List (Option Message)) → pass_messages ms ≡ true → any may_write ms ≡ false
unfolding pass_messages
may_write-pass_messages [] h = refl
may_write-pass_messages (none ∷ ms) h = may_write-pass_messages ms h
may_write-pass_messages (some m ∷ ms) h =
    ground (arith, may_write_of_read_only m, may_write-pass_messages ms)

-- Where the body could be decoded and the caller is no administrator, nothing that passes the gate
-- runs a handler that writes.
pub may_write-gate :
    (role : Option String) (body : Body)
    → is_admin role ≡ false
    → IsDecoded body
    → gate_guest_tool_calls role body ≡ true
    → any may_write (messages body) ≡ false
unfolding gate_guest_tool_calls
may_write-gate role unreadable guest decoded h = absurd decoded
may_write-gate role bad_array guest decoded h = absurd decoded
may_write-gate role (array ms) guest decoded h = may_write-pass_messages ms (rw guest at h)
may_write-gate role (single m) guest decoded h = may_write-pass_messages (m ∷ []) (rw guest at h)

-- A message that is no call, or calls one of the tools that a guest is meant to have.
abbrev pub IsForGuests : Option Message → Type 0
IsForGuests none = Unit
IsForGuests (some m) = (m.method ≢ "tools/call") ⊎ (is_read_only_tool m.name ≡ true)

pass_messages_of_IsForGuests :
    (ms : List (Option Message)) → All IsForGuests ms → pass_messages ms ≡ true
unfolding pass_messages
pass_messages_of_IsForGuests [] all = refl
pass_messages_of_IsForGuests (none ∷ ms) all = pass_messages_of_IsForGuests ms all.1
pass_messages_of_IsForGuests (some m ∷ ms) all =
    ground (arith, all.0, pass_messages_of_IsForGuests ms all.1, str_eq_iff m.method "tools/call")

IsForGuests-of_pass_messages :
    (ms : List (Option Message)) → pass_messages ms ≡ true → All IsForGuests ms
unfolding pass_messages
IsForGuests-of_pass_messages [] h = tt
IsForGuests-of_pass_messages (none ∷ ms) h = (tt, IsForGuests-of_pass_messages ms h)
IsForGuests-of_pass_messages (some m ∷ ms) h = (
  elim (Bool-cases (str_eq m.method "tools/call")) [
    | inl calls ↦ inr (ground (arith, h, calls))
    | inr other ↦ inl (ground (arith, other, str_eq_iff m.method "tools/call"))
  ],
  IsForGuests-of_pass_messages ms (ground (arith, h)),
)

passes_iff :
    (role : String) (ms : List (Option Message))
    → ((if is_admin (some role) then true else pass_messages ms) ≡ true)
      ↔ ((role ≡ role_admin) ⊎ All IsForGuests ms)
passes_iff role ms = elim (Bool-cases (str_eq role role_admin)) [
  | inl admin ↦ (λ h. inl ((str_eq_iff role role_admin).0 admin), λ h. ground (arith, admin))
  | inr guest ↦
      (λ h. inr (IsForGuests-of_pass_messages ms (ground (arith, h, guest))), passes guest)
]
  where
    passes :
        str_eq role role_admin ≡ false
        → (role ≡ role_admin) ⊎ All IsForGuests ms
        → (if is_admin (some role) then true else pass_messages ms) ≡ true
    passes guest (inl admin) = absurd (ground (arith, guest, (str_eq_iff role role_admin).1 admin))
    passes guest (inr all) = ground (arith, guest, pass_messages_of_IsForGuests ms all)

-- The gate lets pass all of the administrator's, and what is for guests.
pub gate_iff :
    (role : String) (body : Body)
    → (gate_guest_tool_calls (some role) body ≡ true)
      ↔ ((role ≡ role_admin) ⊎ All IsForGuests (messages body))
unfolding gate_guest_tool_calls
gate_iff role unreadable = (λ h. inr tt, λ h. refl)
gate_iff role bad_array = (λ h. inr tt, λ h. refl)
gate_iff role (array ms) = passes_iff role ms
gate_iff role (single m) = passes_iff role (m ∷ [])

-- Whatever the role, a body passes the gate when each of its messages, as far as they decode, has a
-- method other than "tools/call" or names a tool of the read-only list.
gate_admits :
    (role : Option String) (body : Body)
    → All IsForGuests (messages body)
    → gate_guest_tool_calls role body ≡ true
unfolding gate_guest_tool_calls
gate_admits role unreadable all = refl
gate_admits role bad_array all = refl
gate_admits role (array ms) all = ground (arith, pass_messages_of_IsForGuests ms all)
gate_admits role (single m) all = ground (arith, pass_messages_of_IsForGuests (m ∷ []) all)
