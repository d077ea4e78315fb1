-- ===== src/Risk/BatchPut.antt =====
-- analyzeBatchPut of internal/risk/analyzer.go.
pub mod Harmless
use mcp_server_dynamodb_sage.Prelude.{
  ℕ, ◌+◌, ◌⊎◌, inl, inr, String, Bool, true, false, List, [], ◌∷◌, ◌++◌, Assoc, length, sum, map,
  ltb, str_append, if◌then◌else◌,
}
use mcp_server_dynamodb_sage.Prelude.Int.{ℤ, pos, ltb_ℤ}
use mcp_server_dynamodb_sage.Engine.Values.{Item, estimated_size}
use mcp_server_dynamodb_sage.Engine.Guardrail.{
  Guardrail, max_individual_size, validate_schema, get_sensitive_fields, check_table_pii_fields,
  validate_capacity_units, estimated_wcu,
}
use mcp_server_dynamodb_sage.Risk.Level.{
  RiskLevel, medium, assess, check_table_protection, Analysis, assessed, analysis_error,
}
use mcp_server_dynamodb_sage.Risk.Writes.{
  Marshalled, marshalled, not_marshalled, Printer, if_any, schema_reason, pii_reason, size_reasons,
  format_sensitive_fields,
}

-- What attributevalue.MarshalMap makes of the items, up to the first that it refuses.
unfoldable pub marshal_items :
    {V : Type 0} → (Assoc V → Marshalled) → List (Assoc V) → List Item ⊎ String
marshal_items marshal [] = inl []
marshal_items marshal (i ∷ items) =
    let rest = marshal_items marshal items in
    elim (marshal i) [
      | not_marshalled e ↦ inr (str_append "failed to marshal item: " e)
      | marshalled av ↦ elim rest [ inl avs ↦ inl (av ∷ avs) | inr e ↦ inr e ]
    ]

-- The fields that a loop over the items collects.
unfoldable pub collect : {V : Type 0} → (Assoc V → List String) → List (Assoc V) → List String
collect fields [] = []
collect fields (i ∷ items) = fields i ++ collect fields items

-- The first reason of a loop that ends at the first item with one.
abbrev pub or_else : List String → List String → List String
or_else [] rest = rest
or_else (r ∷ rs) rest = r ∷ rs

unfoldable pub first_reason : (Item → List String) → List Item → List String
first_reason reasons [] = []
first_reason reasons (av ∷ avs) = or_else (reasons av) (first_reason reasons avs)

module _ {F : Type 0} (print : Printer) (units : ℕ → String) (g : Guardrail F)
    (table : String) where
  abbrev pub schema_reasons : Item → List String
  schema_reasons av = if_any (schema_reason print) (validate_schema g table av)

  -- validateCapacity, on the sum of the units, a whole number: `units` is its text as a float64.
  abbrev pub capacity_reasons : ℕ → List String
  capacity_reasons n =
      if validate_capacity_units g (pos n)
      then str_append "Total CapacityUnits " (
          str_append (units n) (
            str_append " for the batch: capacity units " (
              str_append (print.number (pos n)) (
                str_append " exceed limit of "
                  (print.number g.config.risk_thresholds.max_throughput_increase)))))
        ∷ []
      else []

  abbrev pub put_count_reasons : ℕ → List String
  put_count_reasons n =
      if ltb_ℤ g.config.risk_thresholds.batch_put_count (pos n)
      then str_append "Batch put of " (
          str_append (print.number (pos n)) (
            str_append " items exceeds DynamoDB limit of "
              (str_append (print.number g.config.risk_thresholds.batch_put_count) " per request")))
        ∷ []
      else []

  module _ {V : Type 0} where
    unfoldable pub batch_put_reasons : List (Assoc V) → List Item → List String
    unfolding check_table_protection collect first_reason
    batch_put_reasons items avs =
        check_table_protection g table
        ++ first_reason schema_reasons avs
        ++ if_any (λ fs. format_sensitive_fields fs g.config.enforce_password_hashing)
            (collect (get_sensitive_fields g) items)
        ++ if_any pii_reason (collect (check_table_pii_fields g table) items)
        ++ first_reason (λ av. size_reasons print (estimated_size av)) avs
        ++ capacity_reasons (sum (map estimated_wcu avs))
        ++ put_count_reasons (length items)

    unfoldable pub analyze_batch_put : (Assoc V → Marshalled) → List (Assoc V) → Analysis
    unfolding batch_put_reasons marshal_items
    analyze_batch_put marshal [] = assessed (record {
      table_name = "";
      level = medium;
      reason = str_append "No items to put into table " table;
    })
    analyze_batch_put marshal (i ∷ items) = elim (marshal_items marshal (i ∷ items)) [
      | inr e ↦ analysis_error e
      | inl avs ↦ assessed (assess table (batch_put_reasons (i ∷ items) avs))
    ]
