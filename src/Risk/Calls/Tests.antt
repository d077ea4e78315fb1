-- ===== src/Risk/Calls/Tests.antt =====
-- The risk of a call, and what becomes of it, at concrete inputs: server/tools.go and internal/risk.
use mcp_server_dynamodb_sage.Prelude.{
  ℕ, inl, String, ◌≡◌, ◌≢◌, ◌↔◌, ◌≤◌, refl, false, Option, none, some, List, [], ◌∷◌, ◌++◌, Assoc,
  str_eq, arith,
}
use mcp_server_dynamodb_sage.Engine.Values.{Item, no_entries, entry, member_s, estimated_size}
use mcp_server_dynamodb_sage.Engine.Guardrail.{
  validate_read_only_table, validate_protected_table, get_table_config,
}
use mcp_server_dynamodb_sage.Risk.Level.{goes_on, decide, check_table_protection}
use mcp_server_dynamodb_sage.Risk.Writes.{marshalled}
use mcp_server_dynamodb_sage.Risk.Samples.{
  guard, print, marshal, unmarshal, empty_table, surroundings, on_table,
}
use mcp_server_dynamodb_sage.Risk.Updates.{
  analyze_update_item, update_reasons, if_said, payload_reasons, check_expression_complexity,
}
use mcp_server_dynamodb_sage.Risk.Updates.Allowed.{IsHarmlessUpdate, update_goes_on_iff}
use mcp_server_dynamodb_sage.Risk.Updates.Placeholders.{placeholders_hide_fields}
use mcp_server_dynamodb_sage.Risk.Advisor.{
  Fields, no_fields, field, Argument, text, History, frequent_text, tracked,
}
use mcp_server_dynamodb_sage.Risk.Advisor.Frequency.{
  fingerprint, times, history_after, scan_is_frequent_iff,
}
use mcp_server_dynamodb_sage.Risk.Advisor
use mcp_server_dynamodb_sage.Risk.Dispatch.Guarded.{GuardedTool}
use mcp_server_dynamodb_sage.Risk.Calls.{converted, Call, Advice, handled, with_risk_analysis}
use mcp_server_dynamodb_sage.Risk.Calls.Held.{MayRun, handler_runs_iff, closed_table_is_held}
use mcp_server_dynamodb_sage.Server.Jobs.Execute.{CallToolResult}

abbrev values : Assoc String
values = (":password", "secret") ∷ []

update_goes_on_iff_example :
    (decide false (
        analyze_update_item print guard "users" marshal unmarshal
          (some empty_table)
          []
          values
          "SET password = :password")
      ≡ goes_on)
    ↔ ((av : Item) × (marshal values ≡ marshalled av)
        × ((k : Item) × (marshal [] ≡ marshalled k)
            × IsHarmlessUpdate print guard "users" marshal unmarshal
                (some empty_table)
                values
                av
                k
                "SET password = :password"))
update_goes_on_iff_example =
    update_goes_on_iff print guard "users" marshal unmarshal (some empty_table) [] values
      "SET password = :password"

abbrev values_item : Item
values_item = entry ":password" (member_s "secret") no_entries

placeholders_hide_fields_example :
    update_reasons print guard "users" marshal unmarshal values values_item
      "SET password = :password" "" ""
    ≡ check_table_protection guard "users"
      ++ if_said print guard "users" marshal unmarshal ""
      ++ payload_reasons print guard "users" marshal unmarshal (estimated_size values_item)
      ++ if_said print guard "users" marshal unmarshal ""
      ++ if_said print guard "users" marshal unmarshal
          (check_expression_complexity print guard "SET password = :password")
unfolding get_table_config
placeholders_hide_fields_example =
    placeholders_hide_fields guard "users" print marshal unmarshal values values_item
      "SET password = :password" "" "" (refl, tt) (refl, tt) (λ h. omega (arith, h), tt) tt tt

abbrev users : String
users = "users"

abbrev old : String
old = "age > :a"

abbrev scan_users : Fields
scan_users = field "tableName" (text "users") (field "filterExpression" (text "age > :a") no_fields)

abbrev scans : List (String × Option Fields)
scans =
    ("scan_table", some scan_users)
    ∷ ("scan_table", some scan_users)
    ∷ ("put_item", some scan_users)
    ∷ ("scan_table", some scan_users)
    ∷ []

abbrev same : String → String
same s = s

abbrev nothing_known : String → Option Advisor.Shape
nothing_known table = none

abbrev no_ttl : String → Advisor.TtlStatus
no_ttl table = Advisor.describe_failed

scan_is_frequent_iff_example :
    ((tracked same "users" "age > :a" (history_after same nothing_known no_ttl scans)).0
      ≡ frequent_text "age > :a" ∷ [])
    ↔ ((users ≢ "")
        × (old ≢ "")
        × (3 ≤ times same nothing_known no_ttl (fingerprint same "users" "age > :a") scans))
scan_is_frequent_iff_example =
    scan_is_frequent_iff same nothing_known no_ttl scans "users" "age > :a"

abbrev put_call : String → Call ℕ String
put_call table = record {
  name = "put_item";
  decoded = inl (on_table table);
  fields = none;
  input = converted false (some table);
  id = "j1";
  payload = inl "{}";
}

abbrev advice : Advice
advice = record { md5 = same; describe = nothing_known; describe_ttl = no_ttl; kafka = none }

abbrev fine : CallToolResult × Option String
fine = (record { content = []; is_error = false }, none)

handler_runs_iff_example :
    ((with_risk_analysis (put_call "users") surroundings guard advice fine []).deeds ≡ handled ∷ [])
    ↔ MayRun (put_call "users") surroundings guard advice fine (put_call "users").input
handler_runs_iff_example = handler_runs_iff (put_call "users") surroundings guard advice fine []

closed_table_is_held_example :
    ((with_risk_analysis (put_call "ledger") surroundings guard advice fine []).deeds ≡ [])
    × ((with_risk_analysis (put_call "ledger") surroundings guard advice fine []).result.is_error
        ≡ false)
    × ((with_risk_analysis (put_call "ledger") surroundings guard advice fine []).history ≡ [])
unfolding validate_read_only_table validate_protected_table get_table_config str_eq
closed_table_is_held_example =
    closed_table_is_held (put_call "ledger") surroundings guard advice fine [] GuardedTool.put_item
      (on_table "ledger") (some "ledger") refl refl refl refl
