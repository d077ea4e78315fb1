-- ===== src/Server/Auth.antt =====
-- server/auth.go: which requests need a token, and the role that a token gives.
use mcp_server_dynamodb_sage.Prelude.{
  String, Bool, not, ◌&&◌, ◌||◌, Option, none, some, str_eq, has_prefix, is_blank, cut_prefix,
  if◌then◌else◌,
}

abbrev pub role_guest : String
role_guest = "guest"

abbrev pub role_admin : String
role_admin = "admin"

-- The environment variables that the handlers read.
pub record Env : Type 0 where
  pub skip_token_check : String  -- SKIP_TOKEN_CHECK
  pub guest_key : String  -- GUEST_KEY
  pub admin_key : String  -- ADMIN_KEY

-- What the handlers read of a request, but for its body.
pub record Head : Type 0 where
  pub method : String
  pub path : String
  pub authorization : String
  pub query_token : String

unfoldable pub skip_token_check : Env → Bool
skip_token_check env = str_eq env.skip_token_check "true"

-- The token that tokenRole compares.
unfoldable pub request_token : Head → String
request_token r =
    let (token, found) = cut_prefix r.authorization "Bearer " in
    if (not found || is_blank token) && str_eq r.path "/api/events" then r.query_token else token

unfoldable pub token_role : Env → Head → Option String
unfolding request_token
token_role env r =
    let token = request_token r in
    if is_blank token
    then none
    else if not (str_eq env.guest_key "") && str_eq env.guest_key token
    then some role_guest
    else if not (str_eq env.admin_key "") && str_eq env.admin_key token
    then some role_admin
    else none

unfoldable pub is_read_method : Head → Bool
is_read_method r = str_eq r.method "GET" || str_eq r.method "HEAD"

unfoldable pub is_public_request : Env → Head → Bool
unfolding skip_token_check is_read_method
is_public_request env r =
    skip_token_check env
    || str_eq r.method "OPTIONS"
    || str_eq r.path "/health"
    || str_eq r.path "/api/login"
    || str_eq r.path "/api/demo"
    || (is_read_method r
        && (has_prefix r.path "/_next/"
            || has_prefix r.path "/static/"
            || str_eq r.path "/"
            || str_eq r.path "/login"
            || str_eq r.path "/favicon.ico"
            || str_eq r.path "/icon.svg"
            || (not (has_prefix r.path "/api/")
                && not (str_eq r.path "/sse")
                && not (str_eq r.path "/mcp"))))
