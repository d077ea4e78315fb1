-- ===== src/Server/Jobs/Execute.antt =====
-- executeJobOp of server/handlers.go: a job's payload is decoded, its operation is dispatched, and
-- what the handler returns is a result or an error. The handlers call DynamoDB and the document
-- store: what a handler answers is a parameter.
use mcp_server_dynamodb_sage.Prelude.{
  String, ◌≡◌, Bool, true, false, Option, none, some, List, [], ◌∷◌, str_append, str_eq, ◌||◌,
  if◌then◌else◌, ◌↔◌, arith,
}

-- mcp.Content, of which the text alone is read.
pub data Content : Type 0 where
  text_content : String → Content
  other_content : Content

pub record CallToolResult : Type 0 where
  pub content : List Content
  pub is_error : Bool

-- What json.Unmarshal makes of the arguments of an operation, and its handler of these.
pub data Answer : Type 0 where
  bad_args : String → Answer
  failed : String → Answer
  answered : Option CallToolResult → Answer

pub data JobPayload : Type 0 where
  malformed : String → JobPayload
  job_payload : String → JobPayload  -- the operation

-- jr.Error or jr.Result
pub data JobEnd : Type 0 where
  ended_badly : String → JobEnd
  ended_well : Option CallToolResult → JobEnd

-- isLargeOperation of server/tools.go: the operations that are queued.
unfoldable pub is_large_operation : String → Bool
is_large_operation name =
    str_eq name "create_optimized_table"
    || str_eq name "batch_put_items"
    || str_eq name "batch_delete_items"
    || str_eq name "ingest_document"

unfoldable pub texts : List Content → List String
texts [] = []
texts (text_content t ∷ cs) = t ∷ texts cs
texts (other_content ∷ cs) = texts cs

-- strings.Join(texts, "\n")
unfoldable pub join_lines : List String → String
join_lines [] = ""
join_lines (t ∷ []) = t
join_lines (t ∷ u ∷ ts) = str_append t (str_append "\n" (join_lines (u ∷ ts)))

unfoldable pub extract_error_text : Option CallToolResult → String
unfolding texts join_lines
extract_error_text none = "unknown error"
extract_error_text (some r) = elim (texts r.content) [
  | [] ↦ "unknown error"
  | t ∷ ts ↦ join_lines (t ∷ ts)
]

-- `result != nil && result.IsError`
abbrev pub is_error_result : Option CallToolResult → Bool
is_error_result none = false
is_error_result (some r) = r.is_error

-- The body of a case of the switch, which is the same for each operation.
unfoldable pub end_of_answer : String → Answer → JobEnd
unfolding extract_error_text
end_of_answer op (bad_args e) =
    ended_badly (str_append "failed to parse " (str_append op (str_append " args: " e)))
end_of_answer op (failed e) =
    ended_badly (str_append "failed to execute " (str_append op (str_append ": " e)))
end_of_answer op (answered r) =
    if is_error_result r
    then ended_badly (str_append op (str_append " returned error: " (extract_error_text r)))
    else ended_well r

unfoldable pub execute_job_op : (String → Answer) → JobPayload → JobEnd
unfolding end_of_answer
execute_job_op answer (malformed e) = ended_badly (str_append "failed to unmarshal job payload: " e)
execute_job_op answer (job_payload op) =
    if str_eq op "batch_put_items"
    then end_of_answer op (answer op)
    else if str_eq op "batch_delete_items"
    then end_of_answer op (answer op)
    else if str_eq op "create_optimized_table"
    then end_of_answer op (answer op)
    else if str_eq op "ingest_document"
    then end_of_answer op (answer op)
    else ended_badly (str_append "unknown operation: " op)

dispatch_of_large :
    (answer : String → Answer) (op : String)
    → is_large_operation op ≡ true
    → execute_job_op answer (job_payload op) ≡ end_of_answer op (answer op)
unfolding is_large_operation execute_job_op
dispatch_of_large answer op h = ground arith

end_of_answer_iff :
    (op : String) (a : Answer) (r : Option CallToolResult)
    → (end_of_answer op a ≡ ended_well r) ↔ ((a ≡ answered r) × (is_error_result r ≡ false))
unfolding end_of_answer
end_of_answer_iff op (bad_args e) r = (λ h. cc, λ h. cc (h.0))
end_of_answer_iff op (failed e) r = (λ h. cc, λ h. cc (h.0))
end_of_answer_iff op (answered s) r = (λ h. ground arith, λ h. ground arith)

-- A job that has been queued ends well, with a given result, exactly when the handler of its
-- operation answers that result and the result does not have its error flag set: each operation
-- that is queued is one that the worker dispatches.
pub execute_job_op_iff :
    (answer : String → Answer) (op : String) (r : Option CallToolResult)
    → is_large_operation op ≡ true
    → (execute_job_op answer (job_payload op) ≡ ended_well r)
      ↔ ((answer op ≡ answered r) × (is_error_result r ≡ false))
execute_job_op_iff answer op r h =
    rw (dispatch_of_large answer op h) (end_of_answer_iff op (answer op) r)
