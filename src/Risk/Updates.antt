-- ===== src/Risk/Updates.antt =====
-- analyzeUpdateItem of internal/risk/analyzer.go. What attributevalue.MarshalMap and UnmarshalMap give,
-- what DynamoDB answers, and the texts of a number and of a schema error, are parameters.
pub mod Placeholders
pub mod Texts
pub mod Reasons
pub mod Allowed
use mcp_server_dynamodb_sage.Prelude.{
  ℕ, ◌+◌, ◌-◌, ◌⊎◌, inl, inr, String, Bool, true, false, ◌||◌, Option, none, some, List, [], ◌∷◌,
  ◌++◌, Assoc, ltb, ◌==◌, str_eq, str_append, has_prefix, contains, trim_space, commas,
  if◌then◌else◌,
}
use mcp_server_dynamodb_sage.Prelude.Int.{ℤ, pos, ltb_ℤ}
use mcp_server_dynamodb_sage.Engine.Values.{Item, estimated_size}
use mcp_server_dynamodb_sage.Engine.Guardrail.{
  Guardrail, max_individual_size, validate_schema, get_sensitive_fields, check_table_pii_fields,
}
use mcp_server_dynamodb_sage.Risk.Level.{
  assess, join_reasons, check_table_protection, Analysis, assessed, analysis_error,
}
use mcp_server_dynamodb_sage.Risk.Writes.{
  Marshalled, marshalled, not_marshalled, Printer, if_any, schema_reason,
}

-- GetItem: the item, if there is one, or an error.
pub data Fetched : Type 0 where
  found : Option Item → Fetched
  get_failed : String → Fetched

-- The answers of DynamoDB to the first and to the second GetItem of an analysis, by the key.
pub record Lookups : Type 0 where
  pub first : Item → Fetched
  pub second : Item → Fetched

-- getItemFromDB: without a client there is no item.
unfoldable pub get_item_from_db : Option (Item → Fetched) → Item → Fetched
get_item_from_db none key = found none
get_item_from_db (some get) key = get key

abbrev pub first_get : Option Lookups → Option (Item → Fetched)
first_get none = none
first_get (some db) = some db.first

abbrev pub second_get : Option Lookups → Option (Item → Fetched)
second_get none = none
second_get (some db) = some db.second

-- A text, empty if there is nothing to say, or an error.
abbrev pub Said : Type 0
Said = String ⊎ String

abbrev pub bytes_text : Printer → String → ℕ → String
bytes_text print what size = str_append what (
    str_append " size ("
      (str_append (print.number (pos size)) " bytes) exceeds DynamoDB 400KB limit"))

-- One of the four clauses of an update expression begins the text, or follows a space in it.
abbrev pub clause_count : String → String → ℕ
clause_count e clause = if has_prefix e clause || contains e (str_append " " clause) then 1 else 0

abbrev pub clauses : String → ℕ
clauses e =
    clause_count e "SET" + clause_count e "ADD" + clause_count e "REMOVE" + clause_count e "DELETE"

-- The count of actions, with what the clauses beyond the first add.
abbrev pub actions : String → ℕ
actions e = 1 + commas e + (clauses e - 1)

abbrev pub expression_text : ℤ → String → String
expression_text depth e =
    if str_eq e ""
    then "update expression is empty"
    else if clauses e == 0
    then "Invalid update expression"
    else if ltb_ℤ depth (pos (actions e))
    then "Too many actions in the expression"
    else ""

module _ {F : Type 0} (print : Printer) (g : Guardrail F) where
  unfoldable pub check_expression_complexity : String → String
  check_expression_complexity e =
      expression_text g.config.risk_thresholds.update_expression_depth (trim_space e)

  -- The size of the item after the update is estimated as the sum of both.
  unfoldable pub updated_size_text : ℕ → Fetched → Said
  updated_size_text payload (get_failed e) = inr (str_append "failed to get item: " e)
  updated_size_text payload (found none) = inl ""
  updated_size_text payload (found (some item)) = inl (
      if ltb max_individual_size (estimated_size item + payload)
      then bytes_text print "Updated item" (estimated_size item + payload)
      else "")

  unfoldable pub check_updated_item_size : Option (Item → Fetched) → Item → Marshalled → Said
  unfolding updated_size_text get_item_from_db
  check_updated_item_size get av (not_marshalled e) = inr (str_append "failed to marshal key: " e)
  check_updated_item_size get av (marshalled key) =
      if ltb max_individual_size (estimated_size av)
      then inl (bytes_text print "Payload" (estimated_size av))
      else updated_size_text (estimated_size av) (get_item_from_db get key)

  module _ {V : Type 0} (table : String) (marshal : Assoc V → Marshalled)
      (unmarshal : Item → Assoc V ⊎ String) where
    -- checkCurrentItemPIIFields, once the item has been unmarshalled.
    unfoldable pub current_text : Assoc V ⊎ String → Said
    current_text (inr e) = inr e
    current_text (inl item) = elim (check_table_pii_fields g table item) [
      | [] ↦ inl ""
      | f ∷ fs ↦ inl (str_append "current item contains sensitive_fields " (join_reasons (f ∷ fs)))
    ]

    unfoldable pub current_item_text : Fetched → Said
    unfolding current_text
    current_item_text (get_failed e) = inr e
    current_item_text (found none) = inl ""
    current_item_text (found (some item)) = current_text (unmarshal item)

    unfoldable pub check_current_item_pii_fields : Option (Item → Fetched) → Marshalled → Said
    unfolding current_item_text get_item_from_db
    check_current_item_pii_fields get (not_marshalled e) =
        inr (str_append "failed to marshal key: " e)
    check_current_item_pii_fields get (marshalled key) =
        current_item_text (get_item_from_db get key)

    -- A text as a reason, if it is not empty.
    abbrev pub if_said : String → List String
    if_said t = if str_eq t "" then [] else t ∷ []

    abbrev pub payload_reasons : ℕ → List String
    payload_reasons size =
        if ltb max_individual_size size then bytes_text print "Updated payload" size ∷ [] else []

    -- The reasons, in the order in which the source appends them.
    unfoldable pub update_reasons :
        (values : Assoc V) (av : Item) (expression current updated : String) → List String
    unfolding check_table_protection check_expression_complexity
    update_reasons values av expression current updated =
        check_table_protection g table
        ++ if_any (schema_reason print) (validate_schema g table av)
        ++ if_any (λ fs. str_append "Update item contains PII_fields " (join_reasons fs))
            (check_table_pii_fields g table values)
        ++ if_any (λ fs. str_append "Update item contains sensitive_fields " (join_reasons fs))
            (get_sensitive_fields g values)
        ++ if_said current
        ++ payload_reasons (estimated_size av)
        ++ if_said updated
        ++ if_said (check_expression_complexity expression)

    -- The two checks that ask DynamoDB, in turn.
    unfoldable pub after_updated :
        (values : Assoc V) (av : Item) (expression current : String) → Said → Analysis
    unfolding update_reasons
    after_updated values av expression current (inr e) =
        analysis_error (str_append "failed to check updated item size: " e)
    after_updated values av expression current (inl updated) =
        assessed (assess table (update_reasons values av expression current updated))

    unfoldable pub after_current :
        Option Lookups → (key values : Assoc V) → Item → String → Said → Analysis
    unfolding after_updated check_updated_item_size
    after_current db key values av expression (inr e) = analysis_error e
    after_current db key values av expression (inl current) =
        after_updated values av expression current
          (check_updated_item_size (second_get db) av (marshal key))

    unfoldable pub after_marshal :
        Option Lookups → (key values : Assoc V) → String → Marshalled → Analysis
    unfolding after_current check_current_item_pii_fields
    after_marshal db key values expression (not_marshalled e) =
        analysis_error (str_append "failed to marshal item: " e)
    after_marshal db key values expression (marshalled av) =
        after_current db key values av expression
          (check_current_item_pii_fields (first_get db) (marshal key))

    unfoldable pub analyze_update_item :
        Option Lookups → (key values : Assoc V) (expression : String) → Analysis
    unfolding after_marshal
    analyze_update_item db key values expression =
        after_marshal db key values expression (marshal values)
