-- ===== src/Risk/Capacity.antt =====
-- The analyses of internal/risk/analyzer.go that weigh sizes and capacities: scans, batches of reads,
-- and changes of a table. Arithmetic on float64, the texts that fmt makes of numbers, and the answers
-- of DynamoDB are parameters.
pub mod Scans
pub mod Batches
use mcp_server_dynamodb_sage.Prelude.{
  ℕ, ◌/◌, ◌⊎◌, inl, inr, String, Bool, true, false, ◌&&◌, Option, none, some, List, [], ◌∷◌, ◌++◌,
  Assoc, length, sum, map, ltb, str_append, if◌then◌else◌,
}
use mcp_server_dynamodb_sage.Prelude.Int.{ℤ, pos, ltb_ℤ}
use mcp_server_dynamodb_sage.Prelude.Float.{Arithmetic}
use mcp_server_dynamodb_sage.Engine.Values.{Item, estimated_size}
use mcp_server_dynamodb_sage.Engine.Guardrail.{
  Guardrail, max_batch_size, validate_capacity_units, estimated_half_rcu,
}
use mcp_server_dynamodb_sage.Risk.Level.{
  Assessment, assess, get_risk_level, join_reasons, check_table_protection, Analysis, assessed,
  analysis_error,
}
use mcp_server_dynamodb_sage.Risk.Writes.{Marshalled}
use mcp_server_dynamodb_sage.Risk.BatchPut.{marshal_items}

-- An assessment whose level is not escalated.
abbrev pub assess_plainly : String → List String → Assessment
assess_plainly table reasons = record {
  table_name = table;
  level = get_risk_level reasons;
  reason = join_reasons reasons;
}

-- The texts of a number: %d, %.2f and %f.
pub record Texts (F : Type 0) : Type 0 where
  pub number : ℤ → String
  pub two_digits : F → String
  pub six_digits : F → String

-- What the analyses read of a table's description.
pub record TableSize : Type 0 where
  pub table_size_bytes : Option ℤ
  pub item_count : Option ℤ
  pub provisioned : Bool

-- DescribeTable: a description, or an error.
pub data Description : Type 0 where
  described : TableSize → Description
  describe_failed : String → Description

abbrev pub safe_int64 : Option ℤ → ℤ
safe_int64 none = pos 0
safe_int64 (some n) = n

module _ {F : Type 0} (f : Arithmetic F) (texts : Texts F) where
  unfoldable pub to_mb : ℤ → F
  to_mb size = f.over (f.of_int size) (f.of_int (pos 1048576))

  -- The units and the price of reading a whole table.
  unfoldable pub estimated_read_cost : TableSize → F × F
  estimated_read_cost t =
      let rcu =
        f.times (f.ceil (f.over (f.of_int (safe_int64 t.table_size_bytes)) (f.of_int (pos 4096))))
          (f.constant 5 1) in
      (
        rcu,
        if t.provisioned
            then f.of_int (pos 0)
            else f.over (f.times rcu (f.constant 125 3)) (f.of_int (pos 1000000)),
      )

  -- validateCapacity: its text, if there is one.
  unfoldable pub validate_capacity : Guardrail F → F → List String
  validate_capacity g cu =
      if validate_capacity_units g (f.int_part cu)
      then str_append "Total CapacityUnits " (
          str_append (texts.six_digits cu) (
            str_append " for the batch: capacity units " (
              str_append (texts.number (f.int_part cu)) (
                str_append " exceed limit of "
                  (texts.number g.config.risk_thresholds.max_throughput_increase)))))
        ∷ []
      else []

  module _ (g : Guardrail F) (table : String) where
    abbrev pub size_text : F → ℤ → String
    size_text mb items = str_append "Table size (" (
        str_append (texts.two_digits mb) (
          str_append " MB) exceeds scan threshold with "
            (str_append (texts.number items) " items")))

    abbrev pub cost_text : F → String
    cost_text cost = str_append "Scan cost ($" (
        str_append (texts.two_digits cost) (
          str_append ") exceeds threshold: "
            (texts.two_digits g.config.risk_thresholds.scan_cost_usd)))

    unfoldable pub scan_reasons : TableSize → List String
    unfolding to_mb estimated_read_cost
    scan_reasons t =
        (if f.lt g.config.risk_thresholds.table_size_mb (to_mb (safe_int64 t.table_size_bytes))
          then size_text (to_mb (safe_int64 t.table_size_bytes)) (safe_int64 t.item_count) ∷ []
          else [])
        ++ (if f.lt (f.of_int (pos 0)) g.config.risk_thresholds.scan_cost_usd
              && f.lt g.config.risk_thresholds.scan_cost_usd (estimated_read_cost t).1
            then cost_text (estimated_read_cost t).1 ∷ []
            else [])

    -- Without a client nothing is said of the table.
    unfoldable pub analyze_scan : Option Description → Analysis
    unfolding scan_reasons
    analyze_scan none = assessed (assess_plainly table [])
    analyze_scan (some (describe_failed e)) =
        analysis_error (str_append "failed to describe table: " e)
    analyze_scan (some (described t)) = assessed (assess_plainly table (scan_reasons t))

    -- The texts of readCapacity and writeCapacity, where they are numbers, and the table's.
    abbrev pub capacity_given : Option F → List String
    capacity_given none = []
    capacity_given (some cu) = validate_capacity g cu

    unfoldable pub analyze_update_table : (read_capacity write_capacity : Option F) → Analysis
    unfolding validate_capacity check_table_protection
    analyze_update_table read_capacity write_capacity = assessed (
        assess table (
          capacity_given read_capacity
          ++ capacity_given write_capacity
          ++ check_table_protection g table))

    abbrev pub get_count_reasons : ℕ → List String
    get_count_reasons n =
        if ltb_ℤ g.config.risk_thresholds.batch_get_count (pos n)
        then str_append "BatchGetItems request for "
            (str_append (texts.number (pos n)) " items exceeds threshold")
          ∷ []
        else []

    abbrev pub request_size_reasons : ℕ → List String
    request_size_reasons size =
        if ltb max_batch_size size
        then str_append "BatchGetItems request size (" (
            str_append (texts.number (pos size)) (
              str_append " bytes) exceeds threshold ("
                (str_append (texts.six_digits (to_mb (pos max_batch_size))) " MB)")))
          ∷ []
        else []

    -- Units are added up in halves, of which a float64 holds every sum that occurs here.
    abbrev pub halves : ℕ → F
    halves n = f.times (f.of_int (pos n)) (f.constant 5 1)

    -- Without keys neither size nor units are looked at.
    unfoldable pub batch_get_reasons : List Item → List String
    unfolding validate_capacity
    batch_get_reasons [] = get_count_reasons 0
    batch_get_reasons (k ∷ ks) =
        get_count_reasons (length (k ∷ ks))
        ++ request_size_reasons (sum (map estimated_size (k ∷ ks)))
        ++ validate_capacity g (halves (sum (map (λ av. estimated_half_rcu av false) (k ∷ ks))))

    unfoldable pub analyze_batch_get :
        {V : Type 0} → (Assoc V → Marshalled) → List (Assoc V) → Analysis
    unfolding batch_get_reasons marshal_items
    analyze_batch_get marshal keys = elim (marshal_items marshal keys) [
      | inr e ↦ analysis_error e
      | inl avs ↦ assessed (assess_plainly table (batch_get_reasons avs))
    ]
