-- ===== src/Handlers/Reads.antt =====
-- queryTable, scanTable, getJobResult and searchCollection of server/handlers.go.
pub mod Secrecy
mod Tests
use mcp_server_dynamodb_sage.Prelude.{
  ℕ, suc, String, Bool, true, false, Option, none, some, List, [], ◌∷◌, Assoc, ◌⊎◌, inl, inr,
  length, str_eq, str_append, if◌then◌else◌,
}
use mcp_server_dynamodb_sage.Prelude.Int.{ℤ, pos}
use mcp_server_dynamodb_sage.Engine.Values.{Item}
use mcp_server_dynamodb_sage.Engine.Guardrail.{
  Guardrail, Warning, no_warning, lowered_to, enforce_limit, scrub_items,
}
use mcp_server_dynamodb_sage.Risk.Writes.{Marshalled, marshalled, not_marshalled}
use mcp_server_dynamodb_sage.Server.Jobs.Execute.{CallToolResult}
use mcp_server_dynamodb_sage.Handlers.Effects.{
  Reply, error, reply, ReadInput, reads, Trace, M, Step, returned, goes, pure, return, ◌>>=◌, ◌>>◌,
  record_event, success_result, error_result, say, audit, Subject, fail_audited,
}
use mcp_server_dynamodb_sage.Handlers.Passwords.{Values}
use mcp_server_dynamodb_sage.Handlers.Tables.{non_empty}

-- What a query or a scan answers: the items, and the key after which there are more. As elsewhere,
-- unmarshalling what DynamoDB gives does not fail.
pub record Page : Type 0 where
  pub items : List Item
  pub last_key : Item

-- The arguments of both. A Go map or pointer may be nil.
pub record ReadArgs (V : Type 0) : Type 0 where
  pub table_name : String
  pub condition : String
  pub projection : String
  pub filter : String
  pub index_name : String
  pub names : Assoc String
  pub values : Assoc V
  pub limit : ℤ
  pub start_key : Option (Assoc V)
  pub consistent : Option Bool

abbrev pub scan_intro : String
scan_intro =
    "⚠\u{fe0f} Warning: Scan reads the entire table and is costly in RCU. Consider using query_table with a GSI for better performance and lower cost.\n\n"

module _ {F V : Type 0} (v : Values V) (g : Guardrail F) where
  -- The lines of the items, numbered from `i` on.
  abbrev pub item_lines : ℕ → List (Assoc V) → List String
  item_lines i [] = []
  item_lines i (item ∷ items) =
      "\n[" ∷ v.number (pos i) ∷ "] " ∷ v.json item ∷ item_lines (suc i) items

  -- The note on more items; the text behind it differs between the two handlers.
  abbrev pub more_lines : String → Assoc V → List String
  more_lines end [] = []
  more_lines end (k ∷ key) =
      "\n\nNote: There are more items available. Use the 'exclusiveStartKey' option with value: "
      ∷ v.json (k ∷ key)
      ∷ " to fetch the next page of items."
      ∷ end
      ∷ []

  -- The message of EnforceLimit, which names two numbers.
  abbrev pub warning_lines : Warning → List String
  warning_lines no_warning = []
  warning_lines (lowered_to limit max) =
      "\nNote: Limit was set to "
      ∷ v.number limit
      ∷ " as it was higher than the maximum allowed limit: "
      ∷ v.number max
      ∷ []

  -- The start key, which may be nil.
  abbrev pub start_key_of : Option (Assoc V) → M (Option Item)
  start_key_of none = pure none
  start_key_of (some key) = elim (v.marshal key) [
    | marshalled av ↦ pure (some av)
    | not_marshalled e ↦
        return (error_result (str_append "Error when marshaling exclusive start key: " e))
  ]

  abbrev pub values_of : Assoc V → M (Option Item)
  values_of values = elim (v.marshal values) [
    | marshalled av ↦ pure (some av)
    | not_marshalled e ↦
        return (error_result (str_append "Error when marshaling expression attribute values: " e))
  ]

  abbrev pub scan_values : Assoc V → M (Option Item)
  scan_values [] = pure none
  scan_values (f ∷ values) = values_of (f ∷ values)

  abbrev pub read_subject : (operation table : String) → Subject
  read_subject operation table = record {
    operation = operation;
    table = table;
    capacity_type = "RCU";
  }

  abbrev pub unmarshalled : List Item → List (Assoc V)
  unmarshalled [] = []
  unmarshalled (item ∷ items) = v.unmarshal item ∷ unmarshalled items

  -- The text of a page: its items are scrubbed.
  unfoldable pub page_text :
      (intro verb end table : String) → Warning → List (Assoc V) → Assoc V → String
  page_text intro verb end table warning items last_key = say (
      intro
      ∷ "DynamoDB Table: \""
      ∷ table
      ∷ "\"\n"
      ∷ verb
      ∷ " "
      ∷ v.number (pos (length items))
      ∷ " items from table "
      ∷ table
      ∷ ":"
      ∷ say (item_lines 1 (scrub_items v.of_text g table items).0)
      ∷ say (more_lines end last_key)
      ∷ say (warning_lines warning)
      ∷ [])

  abbrev pub after_page :
      (operation table failing : String)
      → (List (Assoc V) → Assoc V → String)
      → ReadInput
      → Trace
      → Reply Page
      → Trace × Step CallToolResult
  after_page operation table failing page input w (error e) =
      fail_audited (read_subject operation table) (str_append failing e)
        (reads operation table input ∷ w)
  after_page operation table failing page input w (reply p) = (
    audit operation table "RCU" false ∷ reads operation table input ∷ w,
    goes (success_result (page (unmarshalled p.items) (v.unmarshal p.last_key))),
  )

module _ {F V : Type 0} (v : Values V) (g : Guardrail F)
    (read : Trace → String → ReadInput → Reply Page) where
  -- The call, and what follows it.
  unfoldable pub read_page :
      (operation table failing : String)
      → (List (Assoc V) → Assoc V → String)
      → ReadInput
      → M CallToolResult
  unfolding success_result error_result
  read_page operation table failing page input w =
      after_page v g operation table failing page input w (read w table input)

  unfoldable pub query_keyed : ReadArgs V → Option Item → Option Item → M CallToolResult
  unfolding read_page page_text enforce_limit error_result
  query_keyed args start_key values =
      if str_eq args.condition ""
      then return (error_result "KeyConditionExpression is required")
      else let (limit, warning) = enforce_limit g args.limit in
        read_page "query_table" args.table_name "Error when querying table: "
          (page_text v g "" "Queried" "\n" args.table_name warning)
          (record {
            condition = some args.condition;
            projection = none;
            filter = none;
            index_name = non_empty args.index_name;
            names = args.names;
            values = values;
            limit = limit;
            start_key = start_key;
            consistent = args.consistent;
          })

  unfoldable pub query_table : ReadArgs V → M CallToolResult
  unfolding query_keyed error_result
  query_table args = do
    start_key ← start_key_of v g args.start_key
    values ← values_of v g args.values
    query_keyed args start_key values

  unfoldable pub scan_keyed :
      ReadArgs V → ℤ → Warning → Option Item → Option Item → M CallToolResult
  unfolding read_page page_text
  scan_keyed args limit warning values start_key =
      read_page "scan_table" args.table_name
        (say ("Error when scanning table " ∷ args.table_name ∷ ": " ∷ []))
        (page_text v g scan_intro "Scanned" "" args.table_name warning)
        (record {
          condition = none;
          projection = non_empty args.projection;
          filter = non_empty args.filter;
          index_name = non_empty args.index_name;
          names = args.names;
          values = values;
          limit = limit;
          start_key = start_key;
          consistent = args.consistent;
        })

  -- In a scan the values come before the start key.
  unfoldable pub scan_table : ReadArgs V → M CallToolResult
  unfolding scan_keyed enforce_limit error_result
  scan_table args = do
    let (limit, warning) = enforce_limit g args.limit
    values ← scan_values v g args.values
    start_key ← start_key_of v g args.start_key
    scan_keyed args limit warning values start_key

-- getJobResult: the stored text of the job's result, which is empty while the job runs, and what
-- decoding it gives.
unfoldable pub get_job_result :
    (String → CallToolResult ⊎ String) → String → Option String → CallToolResult
unfolding success_result error_result
get_job_result decode job_id none = error_result (say ("Job " ∷ job_id ∷ " not found" ∷ []))
get_job_result decode job_id (some json) =
    if str_eq json ""
    then success_result (say ("Job " ∷ job_id ∷ " is being processed, please try again later" ∷ []))
    else elim (decode json) [
      | inl r ↦ r
      | inr e ↦ error_result (str_append "Error unmarshalling job result: " e)
    ]
