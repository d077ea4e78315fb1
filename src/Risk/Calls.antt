-- ===== src/Risk/Calls.antt =====
-- withRiskAnalysis, formatWarningResult and instrumentMCP of server/tools.go: a tool's call is
-- analysed, and then refused with a warning, queued as a job, or made. The id of a job, the JSON of its
-- payload, what Kafka answers, and the tool's handler are parameters.
pub mod Held
mod Tests
use mcp_server_dynamodb_sage.Prelude.{
  ℕ, ◌⊎◌, inl, inr, String, Bool, true, false, not, ◌||◌, Option, none, some, List, [], ◌∷◌, ◌++◌,
  str_eq, str_append, if◌then◌else◌,
}
use mcp_server_dynamodb_sage.Engine.Guardrail.{Guardrail}
use mcp_server_dynamodb_sage.Risk.Level.{Decision, warned, goes_on, decide}
use mcp_server_dynamodb_sage.Risk.Dispatch.{Arguments, Surroundings, analyze}
use mcp_server_dynamodb_sage.Risk.Advisor.{Fields, History, Shape, TtlStatus, track_and_advise}
use mcp_server_dynamodb_sage.Server.Jobs.Execute.{
  Content, text_content, CallToolResult, is_large_operation, join_lines,
}

-- ConvertToMap: what is read of the map is its confirmation and the table's name.
pub data Converted : Type 0 where
  converted : (confirmation : Bool) (table : Option String) → Converted
  not_converted : String → Converted

-- A call: the tool's name, the arguments as the analyses and as the advisor decode them, the map, the
-- job's id, and its payload's JSON or an error.
pub record Call (F V : Type 0) : Type 0 where
  pub name : String
  pub decoded : Arguments F V ⊎ String
  pub fields : Option Fields
  pub input : Converted
  pub id : String
  pub payload : String ⊎ String

-- What is asked of the advisor's surroundings, and Kafka: Send with its error, if there is a client.
pub record Advice : Type 0 where
  pub md5 : String → String
  pub describe : String → Option Shape
  pub describe_ttl : String → TtlStatus
  pub kafka : Option (String → String → Option String)

-- What the call has done.
pub data Deed : Type 0 where
  sent_to_kafka : (id payload : String) → Deed
  submitted : (id payload : String) → Deed
  handled : Deed

-- The deeds in order, the result, the handler's error, and the advisor's history.
pub record Done : Type 0 where
  pub deeds : List Deed
  pub result : CallToolResult
  pub go_error : Option String
  pub history : History

abbrev pub texts_result : Bool → String → CallToolResult
texts_result failed t = record { content = text_content t ∷ []; is_error = failed }

abbrev pub replied : List Deed → CallToolResult → History → Done
replied deeds result history = record {
  deeds = deeds;
  result = result;
  go_error = none;
  history = history;
}

abbrev pub table_given : Converted → String
table_given (converted c (some t)) = t
table_given (converted c none) = ""
table_given (not_converted e) = ""

unfoldable pub format_warning_result : (reason operation : String) → Converted → CallToolResult
format_warning_result reason operation input = texts_result false (
    str_append "⚠\u{fe0f} **WARNING** ⚠\u{fe0f}\n\n**Operation:** " (
      str_append operation (
        str_append "\n**Table:** " (
          str_append (table_given input) (
            str_append "\n**Reason:** " (
              str_append reason (
                str_append
                  "\n\n**INSTRUCTIONS FOR AI:** when I return the warning, you need to ask user to confirm if they want to continue, call "
                  (str_append operation (
                    str_append " again with:\n```json\n{\n  \"tableName\": \"" (
                      str_append (table_given input)
                        "\",\n  \"confirmation\": true\n}\n```"))))))))))

-- The suggestions, one to a line, if there are any.
abbrev pub suggestions_text : List String → String
suggestions_text [] = ""
suggestions_text (t ∷ ts) =
    str_append "💡 **Suggestions** 💡\n\nPlease consider the following and show it to user :\n"
      (join_lines (t ∷ ts))

abbrev pub queued_text : (msg name id : String) → String
queued_text msg name id =
    let told = str_append "Operation " (
      str_append name (
        str_append
          " queued for background processing. To see results call 'get_job_result' with job ID: "
          id)) in
    if str_eq msg "" then told else str_append msg (str_append "\n\n" told)

module _ {F V : Type 0} (call : Call F V) where
  -- The answer of Kafka's producer.
  unfoldable pub after_send : (payload msg : String) → History → Option String → Done
  after_send payload msg history none =
      replied (sent_to_kafka call.id payload ∷ [])
        (texts_result false (queued_text msg call.name call.id)) history
  after_send payload msg history (some e) =
      replied [] (texts_result true (str_append "failed to enqueue task to Kafka: " e)) history

  unfoldable pub deliver :
      Option (String → String → Option String) → (payload msg : String) → History → Done
  unfolding after_send
  deliver (some send) payload msg history = after_send payload msg history (send call.id payload)
  deliver none payload msg history =
      replied (submitted call.id payload ∷ [])
        (texts_result false (queued_text msg call.name call.id)) history

  unfoldable pub enqueue :
      Option (String → String → Option String) → (msg : String) → History → String ⊎ String → Done
  unfolding deliver
  enqueue kafka msg history (inr e) =
      replied [] (texts_result true (str_append "failed to marshal input: " e)) history
  enqueue kafka msg history (inl payload) = deliver kafka payload msg history

  -- The handler's result, with the suggestions after it.
  unfoldable pub call_handler : CallToolResult × Option String → (msg : String) → History → Done
  call_handler (result, e) msg history = record {
    deeds = handled ∷ [];
    result =
        if str_eq msg ""
        then result
        else record result { content = result.content ++ (text_content msg ∷ []) };
    go_error = e;
    history = history;
  }

  module _ (s : Surroundings F V) (g : Guardrail F) (advice : Advice)
      (handler : CallToolResult × Option String) where
    unfoldable pub carry_out : List String × History → Done
    unfolding enqueue call_handler join_lines is_large_operation
    carry_out (suggestions, history) =
        if is_large_operation call.name
        then enqueue advice.kafka (suggestions_text suggestions) history call.payload
        else call_handler handler (suggestions_text suggestions) history

    unfoldable pub after_decision : History → Decision → Done
    unfolding carry_out format_warning_result track_and_advise
    after_decision history (warned reason) =
        replied [] (format_warning_result reason call.name call.input) history
    after_decision history goes_on = carry_out (
        track_and_advise advice.md5 advice.describe advice.describe_ttl call.name call.fields
          history)

    unfoldable pub with_converted : History → Converted → Done
    unfolding after_decision
    with_converted history (not_converted e) =
        replied []
          (format_warning_result (str_append "failed to convert input to map: " e) call.name
            (not_converted e))
          history
    with_converted history (converted confirmed table) =
        after_decision history (decide confirmed (analyze s g call.name call.decoded))

    unfoldable pub with_risk_analysis : History → Done
    unfolding with_converted
    with_risk_analysis history = with_converted history call.input

-- Which kind of error instrumentMCP counts for a call, if any.
unfoldable pub counted_error : Done → Option String
counted_error d = elim d.go_error [
  | some e ↦ some "go_error"
  | none ↦ if d.result.is_error then some "execution" else none
]
