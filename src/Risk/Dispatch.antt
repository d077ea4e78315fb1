-- ===== src/Risk/Dispatch.antt =====
-- Analyze of internal/risk/analyzer.go: which analysis a tool's call gets. The arguments are decoded
-- JSON, each analysis reading its own fields; metrics are left out.
pub mod Guarded
use mcp_server_dynamodb_sage.Prelude.{
  ℕ, ◌⊎◌, inl, inr, String, Bool, true, false, Option, none, some, List, [], Assoc, str_eq,
  str_append, if◌then◌else◌,
}
use mcp_server_dynamodb_sage.Prelude.Float.{Arithmetic}
use mcp_server_dynamodb_sage.Engine.Values.{Item}
use mcp_server_dynamodb_sage.Engine.Guardrail.{Guardrail}
use mcp_server_dynamodb_sage.Risk.Level.{low, Assessment, Analysis, assessed, analysis_error}
use mcp_server_dynamodb_sage.Risk.Design.{Json, analyze_create_optimized_table}
use mcp_server_dynamodb_sage.Risk.Writes.{
  Marshalled, Printer, BatchGet, analyze_delete, analyze_put_item, analyze_batch_delete,
}
use mcp_server_dynamodb_sage.Risk.BatchPut.{analyze_batch_put}
use mcp_server_dynamodb_sage.Risk.Updates.{Lookups, analyze_update_item}
use mcp_server_dynamodb_sage.Risk.Capacity.{
  Texts, Description, analyze_scan, analyze_update_table, analyze_batch_get,
}

-- The fields that the analyses decode. The capacities are those that are numbers.
pub record Arguments (F V : Type 0) : Type 0 where
  pub table_name : String
  pub item : Assoc V
  pub items : List (Assoc V)
  pub key : Assoc V
  pub keys : List (Assoc V)
  pub update_expression : String
  pub expression_attribute_values : Assoc V
  pub read_capacity : Option F
  pub write_capacity : Option F
  pub key_schema : List (Assoc Json)
  pub attribute_definitions : List (Assoc Json)
  pub gsis : List (Assoc Json)

-- Arithmetic on float64, texts, marshalling, and what DynamoDB answers; without a client, nothing.
pub record Surroundings (F V : Type 0) : Type 0 where
  pub arithmetic : Arithmetic F
  pub texts : Texts F
  pub print : Printer
  pub units : ℕ → String
  pub count : ℕ → String
  pub marshal : Assoc V → Marshalled
  pub unmarshal : Item → Assoc V ⊎ String
  pub description : String → Option Description
  pub lookups : Option Lookups
  pub batch_get : Option BatchGet

abbrev pub low_risk : Analysis
low_risk = assessed (record { table_name = ""; level = low; reason = "" })

module _ {F V : Type 0} where
  abbrev pub when_parsed : (Arguments F V → Analysis) → Arguments F V ⊎ String → Analysis
  when_parsed analysis (inr e) = analysis_error (str_append "failed to parse arguments: " e)
  when_parsed analysis (inl a) = analysis a

  module _ (s : Surroundings F V) (g : Guardrail F) where
    unfoldable pub put_analysis : Arguments F V → Analysis
    put_analysis a = assessed (analyze_put_item s.print s.marshal g a.table_name a.item)

    unfoldable pub batch_put_analysis : Arguments F V → Analysis
    batch_put_analysis a = analyze_batch_put s.print s.units g a.table_name s.marshal a.items

    unfoldable pub batch_delete_analysis : Arguments F V → Analysis
    batch_delete_analysis a =
        analyze_batch_delete s.print s.marshal g s.batch_get a.table_name a.keys

    unfoldable pub delete_analysis : Arguments F V → Analysis
    delete_analysis a = assessed (analyze_delete g a.table_name)

    unfoldable pub update_analysis : Arguments F V → Analysis
    update_analysis a =
        analyze_update_item s.print g a.table_name s.marshal s.unmarshal s.lookups a.key
          a.expression_attribute_values a.update_expression

    unfoldable pub update_table_analysis : Arguments F V → Analysis
    update_table_analysis a =
        analyze_update_table s.arithmetic s.texts g a.table_name a.read_capacity a.write_capacity

    unfoldable pub scan_analysis : Arguments F V → Analysis
    scan_analysis a = analyze_scan s.arithmetic s.texts g a.table_name (s.description a.table_name)

    unfoldable pub batch_get_analysis : Arguments F V → Analysis
    batch_get_analysis a = analyze_batch_get s.arithmetic s.texts g a.table_name s.marshal a.keys

    unfoldable pub create_table_analysis : Arguments F V → Analysis
    create_table_analysis a = assessed (
        analyze_create_optimized_table s.count a.table_name a.key_schema a.attribute_definitions
          a.gsis)

    unfoldable pub analyze : String → Arguments F V ⊎ String → Analysis
    analyze name args =
        if str_eq name "scan_table"
        then when_parsed scan_analysis args
        else if str_eq name "batch_delete_items"
        then when_parsed batch_delete_analysis args
        else if str_eq name "batch_get_items"
        then when_parsed batch_get_analysis args
        else if str_eq name "batch_put_items"
        then when_parsed batch_put_analysis args
        else if str_eq name "delete_item"
        then when_parsed delete_analysis args
        else if str_eq name "delete_table"
        then when_parsed delete_analysis args
        else if str_eq name "update_table"
        then when_parsed update_table_analysis args
        else if str_eq name "put_item"
        then when_parsed put_analysis args
        else if str_eq name "update_item"
        then when_parsed update_analysis args
        else if str_eq name "create_optimized_table"
        then when_parsed create_table_analysis args
        else low_risk
