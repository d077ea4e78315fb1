-- ===== src/Engine/Guardrail/Schema.antt =====
-- ValidateSchema of internal/engine/guardrails.go finds exactly the fields of a wrong type.
use mcp_server_dynamodb_sage.Prelude.{
  String, ◌≡◌, ◌↔◌, ◌⊎◌, refl, true, false, Option, none, some, [], Assoc, lookup, inl, inr,
  Option-cases, Bool-cases, arith, str_eq_iff,
}
use mcp_server_dynamodb_sage.Engine.Config.{TableConfig}
use mcp_server_dynamodb_sage.Engine.Values.{
  AttributeValue, member_s, member_n, member_b, member_bool, member_null, member_ss, member_ns,
  member_bs, member_l, member_m, Item, no_entries, entry,
}
use mcp_server_dynamodb_sage.Engine.Guardrail.{
  Guardrail, get_table_config, match_type, schema_errors, validate_schema,
}

-- DynamoDB's name of a value's type.
abbrev pub type_name : AttributeValue → String
type_name (member_s _) = "S"
type_name (member_n _) = "N"
type_name (member_b _) = "B"
type_name (member_bool _) = "BOOL"
type_name (member_null _) = "NULL"
type_name (member_ss _) = "SS"
type_name (member_ns _) = "NS"
type_name (member_bs _) = "BS"
type_name (member_l _) = "L"
type_name (member_m _) = "M"

match_type_iff :
    (v : AttributeValue) (expected : String)
    → (match_type v expected ≡ true) ↔ (expected ≡ type_name v)
unfolding match_type
match_type_iff (member_s _) expected = str_eq_iff expected "S"
match_type_iff (member_n _) expected = str_eq_iff expected "N"
match_type_iff (member_b _) expected = str_eq_iff expected "B"
match_type_iff (member_bool _) expected = str_eq_iff expected "BOOL"
match_type_iff (member_null _) expected = str_eq_iff expected "NULL"
match_type_iff (member_ss _) expected = str_eq_iff expected "SS"
match_type_iff (member_ns _) expected = str_eq_iff expected "NS"
match_type_iff (member_bs _) expected = str_eq_iff expected "BS"
match_type_iff (member_l _) expected = str_eq_iff expected "L"
match_type_iff (member_m _) expected = str_eq_iff expected "M"

-- Each field that the schema knows has the type that it names.
abbrev pub Conforms : Assoc String → Item → Type 0
Conforms columns no_entries = Unit
Conforms columns (entry k v rest) =
    ((lookup k columns ≡ none) ⊎ (lookup k columns ≡ some (type_name v))) × Conforms columns rest

schema_errors_iff :
    (columns : Assoc String) (item : Item)
    → (schema_errors columns item ≡ []) ↔ Conforms columns item
unfolding schema_errors
schema_errors_iff columns no_entries = (λ _. tt, λ _. refl)
schema_errors_iff columns (entry k v rest) =
    let ih = schema_errors_iff columns rest in
    elim (Option-cases (lookup k columns)) [
      | inl e ↦ (λ h. (inl e, ih.0 (ground arith)), λ c. ground (arith, ih.1 c.1))
      | inr (x, e) ↦ (
        λ h. (inr (ground (arith, match_type_iff v x)), ih.0 (ground arith)),
        λ c. ground (arith, ih.1 c.1, match_type_iff v x),
      )
    ]

-- What a table's configuration asks of an item.
abbrev pub Accepts : Option TableConfig → Item → Type 0
Accepts none item = Unit
Accepts (some t) item = (t.enforce_schema ≡ false) ⊎ Conforms t.columns item

-- An item passes schema validation exactly when its table has no configuration, or does not
-- enforce a schema, or every field of the item that the schema names has the type named there.
pub validate_schema_iff :
    {F : Type 0} (g : Guardrail F) (name : String) (item : Item)
    → (validate_schema g name item ≡ []) ↔ Accepts (get_table_config g name) item
unfolding validate_schema
validate_schema_iff g name item = go (get_table_config g name) refl
  where
    go :
        (o : Option TableConfig)
        → get_table_config g name ≡ o
        → (validate_schema g name item ≡ []) ↔ Accepts o item
    go none e = (λ _. tt, λ _. ground arith)
    go (some t) e = elim (Bool-cases t.enforce_schema) [
      | inl on ↦ (
        λ h. inr ((schema_errors_iff t.columns item).0 (ground arith)),
        λ a. ground (arith, (schema_errors_iff t.columns item).1),
      )
      | inr off ↦ (λ _. inl off, λ _. ground arith)
    ]
