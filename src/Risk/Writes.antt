-- ===== src/Risk/Writes.antt =====
-- The analyses of internal/risk/analyzer.go for the tools that write items or delete. What
-- attributevalue.MarshalMap gives, and the texts of a number and of a schema error, are parameters.
pub mod Blocking
pub mod Protected
pub mod Batches
use mcp_server_dynamodb_sage.Prelude.{
  ℕ, zero, suc, ◌+◌, ◌⊎◌, inl, inr, take, drop, sum, map, String, Bool, true, false, Option, none,
  some, List, [], ◌∷◌, ◌++◌, Assoc, length, ltb, str_eq, str_append, equal_fold, if◌then◌else◌,
}
use mcp_server_dynamodb_sage.Prelude.Int.{ℤ, pos, pos_part, ltb_ℤ}
use mcp_server_dynamodb_sage.Engine.Values.{Item, estimated_size}
use mcp_server_dynamodb_sage.Engine.Guardrail.{
  Guardrail, max_individual_size, max_batch_size, validate_schema, get_sensitive_fields,
  check_table_pii_fields,
}
use mcp_server_dynamodb_sage.Risk.Level.{
  RiskLevel, medium, Assessment, assess, join_reasons, check_table_protection, Analysis, assessed,
  analysis_error,
}

-- attributevalue.MarshalMap
pub data Marshalled : Type 0 where
  marshalled : Item → Marshalled
  not_marshalled : String → Marshalled

-- The texts that fmt makes of a number and of the errors of ValidateSchema.
pub record Printer : Type 0 where
  pub number : ℤ → String
  pub schema_errors : List (String × String) → String

unfoldable pub join_fields : List String → String
join_fields [] = ""
join_fields (f ∷ []) = f
join_fields (f ∷ g ∷ fs) = str_append f (str_append ", " (join_fields (g ∷ fs)))

-- The loop of formatSensitiveFieldsWarning: its parts, and the other fields.
unfoldable pub split_passwords : List String → List String × List String
split_passwords [] = ([], [])
split_passwords (f ∷ fs) =
    let (parts, others) = split_passwords fs in
    if equal_fold f "password"
    then ("Item contains password field, which is automatically hashed" ∷ parts, others)
    else (parts, f ∷ others)

-- The part of the warning on the fields that are not passwords.
abbrev pub other_part : List String → List String
other_part [] = []
other_part (f ∷ fs) =
    str_append "fields "
      (str_append (join_fields (f ∷ fs)) " should be encrypted or tokenized before upload")
    ∷ []

unfoldable pub format_sensitive_fields : List String → Bool → String
unfolding split_passwords join_fields
format_sensitive_fields fields enforced =
    let (parts, others) = split_passwords fields in
    str_append "Item contains sensitive fields: "
      (if enforced then join_reasons (parts ++ other_part others) else join_fields fields)

-- A reason if there are any fields, made of them.
abbrev pub if_any : {A : Type 0} → (List A → String) → List A → List String
if_any text [] = []
if_any text (f ∷ fs) = text (f ∷ fs) ∷ []

abbrev pub pii_reason : List String → String
pii_reason fs = str_append "Item contains table-specific PII fields: " (join_fields fs)

abbrev pub schema_reason : Printer → List (String × String) → String
schema_reason print es = str_append "Schema validation failed: " (print.schema_errors es)

abbrev pub size_reasons : Printer → ℕ → List String
size_reasons print size =
    if ltb max_individual_size size
    then str_append "Item size ("
        (str_append (print.number (pos size)) " bytes) exceeds DynamoDB 400KB limit")
      ∷ []
    else []

unfoldable pub analyze_delete : {F : Type 0} → Guardrail F → String → Assessment
unfolding check_table_protection
analyze_delete g table = assess table (check_table_protection g table)

-- The loop of getBatchFromDB: the keys in batches of a given size, which is not 0 once the
-- configuration is loaded. One round more than there are keys is enough.
unfoldable pub batches : ℕ → ℕ → List Item → List (List Item)
batches zero count keys = []
batches (suc fuel) count [] = []
batches (suc fuel) count (k ∷ keys) =
    take count (k ∷ keys) ∷ batches fuel count (drop count (k ∷ keys))

-- BatchGetItem on a batch of keys: the items, or an error.
abbrev pub BatchGet : Type 0
BatchGet = List Item → List Item ⊎ String

unfoldable pub total_size : BatchGet → List (List Item) → ℕ → ℕ ⊎ String
total_size db [] total = inl total
total_size db (b ∷ bs) total = elim (db b) [
  | inr e ↦ inr (str_append "failed to get items: " e)
  | inl items ↦ total_size db bs (total + sum (map estimated_size items))
]

-- Without a client there is nothing to ask.
unfoldable pub get_batch_from_db : Option BatchGet → ℤ → List Item → ℕ ⊎ String
unfolding total_size batches
get_batch_from_db none count keys = inl 0
get_batch_from_db (some db) count keys =
    total_size db (batches (suc (length keys)) (pos_part count) keys) 0

-- The loop of checkDeleteItemSize over the keys.
unfoldable pub marshal_keys :
    {V : Type 0} → (Assoc V → Marshalled) → List (Assoc V) → List Item ⊎ String
marshal_keys marshal [] = inl []
marshal_keys marshal (k ∷ ks) =
    let rest = marshal_keys marshal ks in
    elim (marshal k) [
      | not_marshalled e ↦ inr (str_append "failed to marshal key: " e)
      | marshalled av ↦ elim rest [ inl avs ↦ inl (av ∷ avs) | inr e ↦ inr e ]
    ]

-- The text that checkDeleteItemSize returns beside its error: it is empty for a size within bounds.
abbrev pub delete_size_text : Printer → ℕ → String
delete_size_text print total =
    if ltb max_batch_size total
    then str_append "Total size of items to be deleted (" (
        str_append (print.number (pos total)) (
          str_append " bytes) exceeds DynamoDB batch-delete limit("
            (str_append (print.number (pos max_batch_size)) ")")))
    else ""

module _ {F V : Type 0} (print : Printer) (marshal : Assoc V → Marshalled) where
  unfoldable pub check_delete_item_size :
      Guardrail F → Option BatchGet → List (Assoc V) → String ⊎ String
  unfolding marshal_keys get_batch_from_db
  check_delete_item_size g db keys = elim (marshal_keys marshal keys) [
    | inr e ↦ inr e
    | inl avs ↦ elim (get_batch_from_db db g.config.risk_thresholds.batch_get_count avs) [
      | inr e ↦ inr e
      | inl total ↦ inl (delete_size_text print total)
    ]
  ]

  abbrev pub batch_count_reasons : Guardrail F → ℕ → List String
  batch_count_reasons g n =
      if ltb_ℤ g.config.risk_thresholds.batch_delete_count (pos n)
      then str_append "Batch delete of " (
          str_append (print.number (pos n)) (
            str_append " items exceeds threshold of " (
              str_append (print.number g.config.risk_thresholds.batch_delete_count)
                ". Consider splitting into multiple\tbatches.")))
        ∷ []
      else []

  unfoldable pub analyze_batch_delete :
      Guardrail F → Option BatchGet → String → List (Assoc V) → Analysis
  unfolding check_table_protection check_delete_item_size
  analyze_batch_delete g db table keys = elim (check_delete_item_size g db keys) [
    | inr e ↦ analysis_error e
    | inl text ↦ assessed (
        assess table
          (check_table_protection g table ++ batch_count_reasons g (length keys) ++ (text ∷ [])))
  ]

  -- The reasons of analyzePutItem, from the check of the table on.
  unfoldable pub put_item_reasons : Guardrail F → String → Assoc V → Item → List String
  unfolding check_table_protection
  put_item_reasons g table item av =
      check_table_protection g table
      ++ if_any (schema_reason print) (validate_schema g table av)
      ++ if_any (λ fs. format_sensitive_fields fs g.config.enforce_password_hashing)
          (get_sensitive_fields g item)
      ++ if_any pii_reason (check_table_pii_fields g table item)
      ++ size_reasons print (estimated_size av)

  unfoldable pub analyze_put_item : Guardrail F → String → Assoc V → Assessment
  unfolding put_item_reasons
  analyze_put_item g table [] = record {
    table_name = "";
    level = medium;
    reason = str_append "Item to put into table " (str_append table " cannot be empty");
  }
  analyze_put_item g table (e ∷ item) = elim (marshal (e ∷ item)) [
    | not_marshalled err ↦ record {
      table_name = "";
      level = medium;
      reason = str_append "Failed to marshal item: " err;
    }
    | marshalled av ↦ assess table (put_item_reasons g table (e ∷ item) av)
  ]
