-- ===== src/Server/Chat.antt =====
-- The chat of server/chat.go, and the messages that internal/llm/client.go makes of it. What the
-- language model answers and what the tools do to the world are parameters; a stream of tokens is
-- left out.
pub mod Protocol
use mcp_server_dynamodb_sage.Prelude.{
  ℕ, zero, suc, String, Bool, true, false, not, ◌&&◌, Option, none, some, List, [], ◌∷◌, ◌++◌, ◌⊎◌,
  inl, inr, str_eq, str_append, is_blank, if◌then◌else◌,
}
use mcp_server_dynamodb_sage.Server.Tools.{Tool, tool_by_name}
use mcp_server_dynamodb_sage.Server.Jobs.Execute.{CallToolResult, texts, join_lines}

pub record ToolCall : Type 0 where
  pub id : String
  pub name : String
  pub arguments : Option String

pub record ToolResult : Type 0 where
  pub tool_call_id : String
  pub display_name : String
  pub result : String
  pub is_error : Bool

pub record LlmMessage : Type 0 where
  pub role : String
  pub content : String
  pub tool_calls : List ToolCall
  pub tool_results : List ToolResult

-- A row of the chat's history, and what reading the history gives, the latest row first.
pub record ChatMessage : Type 0 where
  pub user : String
  pub content : String

-- A message without calls and results.
abbrev pub plain : String → String → LlmMessage
plain role content = record { role = role; content = content; tool_calls = []; tool_results = [] }

-- The loop of buildChatHistory, from the last row to the first.
unfoldable pub in_order : List ChatMessage → List LlmMessage
in_order [] = []
in_order (m ∷ ms) = in_order ms ++ (plain m.user m.content ∷ [])

unfoldable pub build_chat_history : String → List ChatMessage ⊎ String → List LlmMessage
unfolding in_order
build_chat_history msg (inr e) = plain "user" msg ∷ []
build_chat_history msg (inl []) = plain "user" msg ∷ []
build_chat_history msg (inl (m ∷ ms)) = in_order (m ∷ ms)

-- formatToolResult; a tool's own error is its text.
unfoldable pub format_tool_result : Option CallToolResult ⊎ String → String
format_tool_result (inr e) = str_append "Error executing tool: " e
format_tool_result (inl none) = "No result"
format_tool_result (inl (some r)) = elim (texts r.content) [
  | [] ↦ "No content available."
  | t ∷ ts ↦ join_lines (t ∷ ts)
]

-- How the loop of generateChat ended.
pub data Ended : Type 0 where
  finished : Ended
  llm_error : String → Ended
  out_of_rounds : Ended

-- What a chat leaves: the world, how it ended, and the messages of each request to the model, the
-- last request first.
pub record Chat (W : Type 0) : Type 0 where
  pub world : W
  pub ended : Ended
  pub requests : List (List LlmMessage)

module _ {W : Type 0} (run : W → Tool × Bool → Option String → W × (String ⊎ String))
    (generate : W → List LlmMessage → List ToolCall ⊎ String) where
  -- executeToolByName
  unfoldable pub execute_tool_by_name : W → ToolCall → W × (String ⊎ String)
  execute_tool_by_name w c = elim (tool_by_name c.name) [
    | none ↦ (w, inr (str_append "unknown tool: " c.name))
    | some t ↦ run w t c.arguments
  ]

  abbrev pub result_of : ToolCall → String ⊎ String → ToolResult
  result_of c (inl output) = record {
    tool_call_id = c.id;
    display_name = c.name;
    result = output;
    is_error = false;
  }
  result_of c (inr e) = record {
    tool_call_id = c.id;
    display_name = c.name;
    result = str_append "Error: " e;
    is_error = true;
  }

  -- The loop over the calls.
  unfoldable pub fetch_tool_results : W → List ToolCall → W × List ToolResult
  unfolding execute_tool_by_name
  fetch_tool_results w [] = (w, [])
  fetch_tool_results w (c ∷ cs) =
      let ran = execute_tool_by_name w c in
      let rest = fetch_tool_results ran.0 cs in (rest.0, result_of c ran.1 ∷ rest.1)

  abbrev pub calls_message : List ToolCall → LlmMessage
  calls_message cs = record { role = "assistant"; content = ""; tool_calls = cs; tool_results = [] }

  abbrev pub results_message : List ToolResult → LlmMessage
  results_message rs = record { role = "user"; content = ""; tool_calls = []; tool_results = rs }

  abbrev pub asked_also : List LlmMessage → Chat W → Chat W
  asked_also messages c = record c { requests = c.requests ++ (messages ∷ []) }

  abbrev pub ends : W → Ended → List LlmMessage → Chat W
  ends w e messages = record { world = w; ended = e; requests = messages ∷ [] }

  -- One round of the loop, and the rounds that follow it.
  abbrev pub round :
      W → List LlmMessage → List ToolCall ⊎ String → (W → List LlmMessage → Chat W) → Chat W
  round w messages (inr e) later = ends w (llm_error e) messages
  round w messages (inl []) later = ends w finished messages
  round w messages (inl (c ∷ cs)) later =
      let fetched = fetch_tool_results w (c ∷ cs) in
      asked_also messages
        (later fetched.0 (messages ++ (calls_message (c ∷ cs) ∷ results_message fetched.1 ∷ [])))

  -- The loop of generateChat, with the rounds that are left.
  unfoldable pub generate_from : ℕ → W → List LlmMessage → Chat W
  unfolding fetch_tool_results
  generate_from zero w messages = record { world = w; ended = out_of_rounds; requests = [] }
  generate_from (suc rounds) w messages =
      round w messages (generate w messages) (generate_from rounds)

  unfoldable pub generate_chat : W → List LlmMessage → Chat W
  unfolding generate_from
  generate_chat w messages = generate_from 10 w messages

-- The blocks and messages that constructMessages makes.
pub data Block : Type 0 where
  tool_use : (id : String) → (arguments : Option String) → (name : String) → Block
  tool_result : (id result : String) → Bool → Block
  text_block : String → Block

pub data Param : Type 0 where
  assistant_message : List Block → Param
  user_message : List Block → Param

abbrev pub use_blocks : List ToolCall → List Block
use_blocks [] = []
use_blocks (c ∷ cs) = tool_use c.id c.arguments c.name ∷ use_blocks cs

abbrev pub result_blocks : List ToolResult → List Block
result_blocks [] = []
result_blocks (r ∷ rs) = tool_result r.tool_call_id r.result r.is_error ∷ result_blocks rs

abbrev pub text_blocks : String → List Block
text_blocks s = if is_blank s then [] else text_block s ∷ []

abbrev pub text_param : LlmMessage → Option Param
text_param m =
    if is_blank m.content
    then none
    else some (
        if str_eq m.role "assistant"
        then assistant_message (text_block m.content ∷ [])
        else user_message (text_block m.content ∷ []))

abbrev pub has_any : {A : Type 0} → List A → Bool
has_any [] = false
has_any (_ ∷ _) = true

-- The `switch` on a message, which may be left out. A text beside results is dropped.
unfoldable pub param_of : LlmMessage → Option Param
param_of m =
    if str_eq m.role "assistant" && has_any m.tool_calls
    then some (assistant_message (use_blocks m.tool_calls ++ text_blocks m.content))
    else if str_eq m.role "user" && has_any m.tool_results
    then some (user_message (result_blocks m.tool_results))
    else text_param m

abbrev pub add_param : Option Param → List Param → List Param
add_param none ps = ps
add_param (some p) ps = p ∷ ps

unfoldable pub construct_messages : List LlmMessage → List Param
unfolding param_of
construct_messages [] = []
construct_messages (m ∷ ms) = add_param (param_of m) (construct_messages ms)
