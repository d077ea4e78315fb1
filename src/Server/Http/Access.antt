-- ===== src/Server/Http/Access.antt =====
-- Who reaches the MCP handler through the endpoints of server/server.go.
use mcp_server_dynamodb_sage.Prelude.{
  String, ◌≡◌, refl, ◌≢◌, ◌↔◌, false, true, Option, none, some, arith, str_eq_iff, str_eq, any, All,
  ◌⊎◌, Bool-cases, Option-cases, inl, inr,
}
use mathlib.Core.Path.{subst₂, sym}
use mcp_server_dynamodb_sage.Server.Auth.{
  Env, Head, is_read_method, is_public_request, role_admin, token_role, skip_token_check,
}
use mcp_server_dynamodb_sage.Server.Gate.{Body, messages, is_admin, gate_guest_tool_calls}
use mcp_server_dynamodb_sage.Server.Gate.Safety.{
  may_write, IsDecoded, may_write-gate, IsForGuests, gate_iff,
}
use mcp_server_dynamodb_sage.Server.Http.{mcp, read_endpoint, write_endpoint, http_handler, serve}

read_endpoint-ne-mcp : (path : String) → read_endpoint path ≢ mcp
unfolding read_endpoint
read_endpoint-ne-mcp path h = ground arith

-- What the handler has tested on its way to the MCP handler.
pub record ReachesMcp (role : Option String) (r : Head) (body : Body) : Type 0 where
  no_preflight : str_eq r.method "OPTIONS" ≡ false
  no_health : str_eq r.path "/health" ≡ false
  no_sse : str_eq r.path "/sse" ≡ false
  no_read : is_read_method r ≡ false
  no_login : str_eq r.path "/api/login" ≡ false
  no_chat : str_eq r.path "/api/chat" ≡ false
  is_post : str_eq r.method "POST" ≡ true
  gated : str_eq r.path "/mcp" ≡ true → gate_guest_tool_calls role body ≡ true

http_handler-mcp :
    (role : Option String) (r : Head) (body : Body)
    → http_handler role r body ≡ mcp
    → ReachesMcp role r body
unfolding http_handler write_endpoint
http_handler-mcp role r body h = ground (arith, read_endpoint-ne-mcp r.path)

post_tests :
    (str_eq "POST" "OPTIONS" ≡ false)
    × (str_eq "POST" "GET" ≡ false)
    × (str_eq "POST" "HEAD" ≡ false)
    × (str_eq "POST" "POST" ≡ true)
unfolding str_eq
post_tests = (refl, refl, refl, refl)

ne_lem : (s t : String) → s ≢ t → str_eq s t ≡ false
ne_lem s t h = ground (arith, h, str_eq_iff s t)

ne_of_lem : (s t : String) → str_eq s t ≡ false → s ≢ t
ne_of_lem s t h = ground (arith, h, str_eq_iff s t)

mcp_tests :
    (str_eq "/mcp" "/health" ≡ false)
    × (str_eq "/mcp" "/api/login" ≡ false)
    × (str_eq "/mcp" "/api/demo" ≡ false)
unfolding str_eq
mcp_tests = (refl, refl, refl)

-- A POST to a path that HTTPHandler does not answer itself, and that gets past the gate.
abbrev IsLetIn : Type 0 → Head → Type 0
IsLetIn Passes r =
    (r.method ≡ "POST")
    × (r.path ≢ "/health")
    × (r.path ≢ "/sse")
    × (r.path ≢ "/api/login")
    × (r.path ≢ "/api/chat")
    × ((r.path ≢ "/mcp") ⊎ Passes)

with_gate : {P Q : Type 0} (r : Head) → (P → Q) → IsLetIn P r → IsLetIn Q r
with_gate r f (post, health, sse, login, chat, inl other) =
    (post, health, sse, login, chat, inl other)
with_gate r f (post, health, sse, login, chat, inr p) = (post, health, sse, login, chat, inr (f p))

past_gate :
    {P Q : Type 0} (r : Head)
    → (r.method ≡ "POST" → r.path ≢ "/health" → r.path ≢ "/api/login" → r.path ≢ "/mcp")
    → IsLetIn P r
    → IsLetIn Q r
past_gate r open_path (post, health, sse, login, chat, _) =
    (post, health, sse, login, chat, inl (open_path post health login))

http_handler_of_IsLetIn :
    (role : Option String) (r : Head) (body : Body)
    → IsLetIn (gate_guest_tool_calls role body ≡ true) r
    → http_handler role r body ≡ mcp
unfolding http_handler write_endpoint is_read_method
http_handler_of_IsLetIn role r body (post, health, sse, login, chat, past) = let_in past
  where
    let_in :
        (r.path ≢ "/mcp") ⊎ (gate_guest_tool_calls role body ≡ true)
        → http_handler role r body ≡ mcp
    let_in (inl other) = ground (
      arith,
      post,
      post_tests,
      ne_lem r.path "/health" health,
      ne_lem r.path "/sse" sse,
      ne_lem r.path "/api/login" login,
      ne_lem r.path "/api/chat" chat,
      ne_lem r.path "/mcp" other,
    )
    let_in (inr passed) = ground (
      arith,
      post,
      post_tests,
      passed,
      ne_lem r.path "/health" health,
      ne_lem r.path "/sse" sse,
      ne_lem r.path "/api/login" login,
      ne_lem r.path "/api/chat" chat,
    )

IsLetIn-of_http_handler :
    (role : Option String) (r : Head) (body : Body)
    → http_handler role r body ≡ mcp
    → IsLetIn (gate_guest_tool_calls role body ≡ true) r
IsLetIn-of_http_handler role r body h =
    let reached = http_handler-mcp role r body h in
    (
      (str_eq_iff r.method "POST").0 reached.is_post,
      ne_of_lem r.path "/health" reached.no_health,
      ne_of_lem r.path "/sse" reached.no_sse,
      ne_of_lem r.path "/api/login" reached.no_login,
      ne_of_lem r.path "/api/chat" reached.no_chat,
      elim (Bool-cases (str_eq r.path "/mcp")) [
        | inl gated ↦ inr (reached.gated gated)
        | inr other ↦ inl (ne_of_lem r.path "/mcp" other)
      ],
    )

module _ (env : Env) (r : Head) (body : Body) where
  demo-mcp : r.method ≡ "POST" → r.path ≡ "/api/demo" → serve env r body ≡ mcp
  unfolding serve http_handler is_public_request write_endpoint str_eq
  demo-mcp m p =
      subst₂ (λ a b. serve env (record r { method = a; path = b }) body ≡ mcp) (sym m) (sym p)
        (ground arith)

  -- With the token check on, a request whose token gives no role reaches the MCP handler exactly
  -- when it is a POST to "/api/demo": there it does, although it carries no valid token.
  pub mcp_without_token :
      skip_token_check env ≡ false
      → token_role env r ≡ none
      → (serve env r body ≡ mcp) ↔ ((r.method ≡ "POST") × (r.path ≡ "/api/demo"))
  unfolding serve is_public_request
  mcp_without_token on token = (
    λ h. ground (
      arith,
      http_handler-mcp none r body,
      str_eq_iff r.method "POST",
      str_eq_iff r.path "/api/demo",
    ),
    λ h. demo-mcp h.0 h.1,
  )

  -- The one public path of the MCP handler is not the gated one.
  not_gated :
      skip_token_check env ≡ false
      → is_public_request env r ≡ true
      → r.method ≡ "POST"
      → r.path ≢ "/health"
      → r.path ≢ "/api/login"
      → r.path ≢ "/mcp"
  unfolding is_public_request is_read_method
  not_gated on public post health login gated = ground (
    arith,
    mcp_tests,
    post_tests,
    ne_lem r.path "/health" health,
    ne_lem r.path "/api/login" login,
  )

  -- With the token check on, a request whose token is valid, the guest's or the administrator's,
  -- reaches the MCP handler exactly when it is a POST to a path other than "/health", "/sse",
  -- "/api/login" and "/api/chat", and one of these holds: the path is not "/mcp", the token is the
  -- administrator's, or each message of the body that decodes has a method other than "tools/call"
  -- or names a tool of the read-only list. So on other paths a guest may call any tool.
  pub mcp_with_token :
      (role : String)
      → skip_token_check env ≡ false
      → token_role env r ≡ some role
      → (serve env r body ≡ mcp) ↔ (
          (r.method ≡ "POST")
          × (r.path ≢ "/health")
          × (r.path ≢ "/sse")
          × (r.path ≢ "/api/login")
          × (r.path ≢ "/api/chat")
          × ((r.path ≢ "/mcp") ⊎ (role ≡ role_admin) ⊎ All IsForGuests (messages body)))
  unfolding serve is_public_request
  mcp_with_token role on token = elim (Bool-cases (is_public_request env r)) [
    | inl public ↦ rw public (
      λ h. past_gate r (not_gated on public) (IsLetIn-of_http_handler none r body h),
      λ h. http_handler_of_IsLetIn none r body (past_gate r (not_gated on public) h),
    )
    | inr closed ↦
        rw (closed, token)
          (
            λ h. with_gate r (gate_iff role body).0 (IsLetIn-of_http_handler (some role) r body h),
            λ h. http_handler_of_IsLetIn (some role) r body (with_gate r (gate_iff role body).1 h),
          )
  ]

  -- On the path "/mcp" with the token check on, a request that is decoded and whose token is not
  -- the administrator's reaches the MCP handler only if none of its messages runs a handler that
  -- writes.
  pub mcp_gated :
      skip_token_check env ≡ false
      → is_admin (token_role env r) ≡ false
      → r.path ≡ "/mcp"
      → IsDecoded body
      → serve env r body ≡ mcp
      → any may_write (messages body) ≡ false
  unfolding serve
  mcp_gated on guest path decoded h = elim (Bool-cases (is_public_request env r)) [
    | inl open_path ↦ handled none refl (rw (open_path, serve) at h)
    | inr closed ↦ elim (Option-cases (token_role env r)) [
      | inl no_role ↦ absurd (cc (rw (closed, serve) at h))
      | inr (role, e) ↦ handled (some role) (rw e at guest) (ground arith)
    ]
  ]
    where
      handled :
          (role : Option String)
          → is_admin role ≡ false
          → http_handler role r body ≡ mcp
          → any may_write (messages body) ≡ false
      handled role low reached =
          may_write-gate role body low decoded
            ((http_handler-mcp role r body reached).gated ((str_eq_iff r.path "/mcp").1 path))
