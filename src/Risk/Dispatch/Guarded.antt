-- ===== src/Risk/Dispatch/Guarded.antt =====
-- What Analyze of internal/risk/analyzer.go and withRiskAnalysis of server/tools.go make of a write to
-- a table that is read-only or protected, by a tool whose analysis looks at that. The analysis of
-- create_optimized_table does not, and update_table_ttl and ingest_document have none.
use mcp_server_dynamodb_sage.Prelude.{◌⊎◌, inl, String, ◌≡◌, ◌≢◌, refl, true, false, str_eq, arith}
use mcp_server_dynamodb_sage.Engine.Guardrail.{
  Guardrail, validate_read_only_table, validate_protected_table,
}
use mcp_server_dynamodb_sage.Risk.Level.{Analysis, goes_on, decide}
use mcp_server_dynamodb_sage.Risk.Writes.Protected.{is_closed, closed_table_is_guarded}
use mcp_server_dynamodb_sage.Risk.BatchPut.Harmless.{batch_put_goes_on_iff}
use mcp_server_dynamodb_sage.Risk.Updates.Allowed.{update_goes_on_iff}
use mcp_server_dynamodb_sage.Risk.Capacity.Batches.{update_table_goes_on_iff}
use mcp_server_dynamodb_sage.Risk.Dispatch.{
  Arguments, Surroundings, when_parsed, put_analysis, batch_put_analysis, batch_delete_analysis,
  delete_analysis, update_analysis, update_table_analysis, analyze,
}

-- The seven tools that change items or tables and whose analysis looks at the table's protection.
pub data GuardedTool : Type 0 where
  put_item update_item delete_item batch_put_items batch_delete_items : GuardedTool
  delete_table update_table : GuardedTool

abbrev pub name_of : GuardedTool → String
name_of put_item = "put_item"
name_of update_item = "update_item"
name_of delete_item = "delete_item"
name_of batch_put_items = "batch_put_items"
name_of batch_delete_items = "batch_delete_items"
name_of delete_table = "delete_table"
name_of update_table = "update_table"

module _ {F V : Type 0} (s : Surroundings F V) (g : Guardrail F) where
  -- The analysis of each of them.
  abbrev analysis_of : GuardedTool → Arguments F V → Analysis
  analysis_of put_item = put_analysis s g
  analysis_of update_item = update_analysis s g
  analysis_of delete_item = delete_analysis s g
  analysis_of batch_put_items = batch_put_analysis s g
  analysis_of batch_delete_items = batch_delete_analysis s g
  analysis_of delete_table = delete_analysis s g
  analysis_of update_table = update_table_analysis s g

  dispatched :
      (tool : GuardedTool) (args : Arguments F V ⊎ String)
      → analyze s g (name_of tool) args ≡ when_parsed (analysis_of tool) args
  unfolding analyze str_eq
  dispatched put_item args = refl
  dispatched update_item args = refl
  dispatched delete_item args = refl
  dispatched batch_put_items args = refl
  dispatched batch_delete_items args = refl
  dispatched delete_table args = refl
  dispatched update_table args = refl

  not_writable :
      (table : String)
      → is_closed g table ≡ true
      → (validate_read_only_table g table ≡ false) × (validate_protected_table g table ≡ false)
      → ⊥
  not_writable table h w = ground (arith, h, w.0, w.1)

  stopped :
      (tool : GuardedTool) (a : Arguments F V)
      → is_closed g a.table_name ≡ true
      → decide false (analysis_of tool a) ≢ goes_on
  unfolding put_analysis update_analysis delete_analysis batch_put_analysis batch_delete_analysis
      update_table_analysis
  stopped put_item a h =
      (closed_table_is_guarded s.print s.marshal g a.table_name a.item s.batch_get a.keys h).2
  stopped batch_delete_items a h =
      (closed_table_is_guarded s.print s.marshal g a.table_name a.item s.batch_get a.keys h).3
  stopped delete_item a h =
      (closed_table_is_guarded s.print s.marshal g a.table_name a.item s.batch_get a.keys h).1
  stopped delete_table a h =
      (closed_table_is_guarded s.print s.marshal g a.table_name a.item s.batch_get a.keys h).1
  stopped update_item a h = λ p.
      not_writable a.table_name h
        ((update_goes_on_iff s.print g a.table_name s.marshal s.unmarshal s.lookups a.key
            a.expression_attribute_values a.update_expression).0
          p).2.2.writable
  stopped batch_put_items a h = λ p.
      not_writable a.table_name h
        ((batch_put_goes_on_iff s.print s.units g a.table_name s.marshal a.items).0 p).1.2.writable
  stopped update_table a h = λ p.
      not_writable a.table_name h
        ((update_table_goes_on_iff s.arithmetic s.texts g a.table_name a.read_capacity
            a.write_capacity).0
          p).2

  -- Without a confirmation none of put_item, update_item, delete_item, batch_put_items,
  -- batch_delete_items, delete_table and update_table goes on, on a table that is read-only or
  -- protected, whatever its other arguments are and whatever DynamoDB answers.
  pub closed_table_is_never_written :
      (tool : GuardedTool) (a : Arguments F V)
      → is_closed g a.table_name ≡ true
      → decide false (analyze s g (name_of tool) (inl a)) ≢ goes_on
  closed_table_is_never_written tool a h p = stopped tool a h (rw (dispatched tool (inl a)) at p)
