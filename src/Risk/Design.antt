-- ===== src/Risk/Design.antt =====
-- The checks of internal/risk/analyzer.go on a table to be created. A description is decoded JSON:
-- of its values the texts alone are read.
pub mod Sound
use Prim.Native.String.{len}
use mcp_server_dynamodb_sage.Prelude.{
  ℕ, String, Bool, true, false, not, ◌&&◌, Option, none, some, List, [], ◌∷◌, ◌++◌, Assoc, lookup,
  any, length, ltb, str_eq, str_append, codes, codes_eq, to_lower, if◌then◌else◌,
}
use mcp_server_dynamodb_sage.Risk.Level.{Assessment, get_risk_level, join_reasons}

pub data Json : Type 0 where
  text : String → Json
  other : Json

-- m[k].(string)
abbrev pub text_at : String → Assoc Json → Option String
text_at k m = elim (lookup k m) [ none ↦ none | some v ↦ elim v [ text s ↦ some s | other ↦ none ] ]

abbrev pub hot_partition_keys : List String
hot_partition_keys =
    "status" ∷ "state" ∷ "gender" ∷ "active" ∷ "verified" ∷ "month" ∷ "year" ∷ "enabled"
    ∷ "disabled" ∷ "deleted" ∷ "archived" ∷ "ready" ∷ "processing" ∷ "unverified" ∷ "locked"
    ∷ "unlocked" ∷ "open" ∷ "closed" ∷ "cancelled" ∷ "completed" ∷ "failed" ∷ "pending" ∷ []

-- hotPartitionKeys[strings.ToLower(name)]
unfoldable pub is_hot : String → Bool
is_hot name = any (λ k. codes_eq (codes k) (to_lower name)) hot_partition_keys

abbrev pub pattern_match : Assoc String
pattern_match =
    ("name", "S")
    ∷ ("email", "S")
    ∷ ("phone", "S")
    ∷ ("address", "S")
    ∷ ("timestamp", "N")
    ∷ ("year", "N")
    ∷ ("age", "N")
    ∷ ("salary", "N")
    ∷ ("balance", "N")
    ∷ []

abbrev pub quoted : String → String → String → String
quoted before name after = str_append before (str_append name after)

-- The key type of an element, which is empty when it is no text.
abbrev pub key_type : Assoc Json → String
key_type m = elim (text_at "keyType" m) [ none ↦ "" | some t ↦ t ]

-- The reason of the first loop of validateKeySchema on one element.
abbrev pub hash_key_reason : Assoc Json → List String
hash_key_reason m = elim (text_at "attributeName" m) [
  | none ↦ []
  | some name ↦
      if str_eq (key_type m) "HASH" && is_hot name
      then quoted "Hash key \"" name "\" is a known hot partition key" ∷ []
      else []
]

unfoldable pub hash_key_reasons : List (Assoc Json) → List String
hash_key_reasons [] = []
hash_key_reasons (m ∷ ms) = hash_key_reason m ++ hash_key_reasons ms

abbrev pub no_hash_key : String
no_hash_key = "Table does not have a hash key, which is required for DynamoDB tables"

abbrev pub no_sort_key : String
no_sort_key =
    "Table does not have a sort key, which is recommended for better query performance and data organization"

-- The second loop of validateKeySchema and the tests after it.
abbrev pub has_key : String → List (Assoc Json) → Bool
has_key t ms = any (λ m. str_eq (key_type m) t) ms

unfoldable pub validate_key_schema : List (Assoc Json) → List String
unfolding hash_key_reasons
validate_key_schema ms =
    hash_key_reasons ms
    ++ (if has_key "HASH" ms then [] else no_hash_key ∷ [])
    ++ (if has_key "HASH" ms && not (has_key "RANGE" ms) then no_sort_key ∷ [] else [])

-- The reasons of validateAttributeDefinitions on an attribute of a name and a type.
abbrev pub type_reason : String → String → List String
type_reason name type = elim (lookup name pattern_match) [
  | none ↦ []
  | some expected ↦
      if str_eq expected type
      then []
      else quoted "Attribute \"" name
          (quoted "\" type " type (str_append " doesn't match expected type " expected))
        ∷ []
]

abbrev pub name_reason : String → List String
name_reason name =
    if ltb 100 (len name)
    then quoted "Attribute name \"" name "\" exceeds 100 characters limit" ∷ []
    else []

abbrev pub attribute_reason : Assoc Json → List String
attribute_reason m = elim (text_at "attributeName" m) [
  | none ↦ []
  | some name ↦ elim (text_at "attributeType" m) [
    | none ↦ []
    | some type ↦ type_reason name type ++ name_reason name
  ]
]

unfoldable pub validate_attribute_definitions : List (Assoc Json) → List String
validate_attribute_definitions [] = []
validate_attribute_definitions (m ∷ ms) = attribute_reason m ++ validate_attribute_definitions ms

-- The reasons of validateGsis on one index.
abbrev pub projects_all : Assoc Json → Bool
projects_all m = elim (text_at "projectionType" m) [ none ↦ false | some t ↦ str_eq t "ALL" ]

abbrev pub gsi_reason : Assoc Json → List String
gsi_reason m = elim (text_at "partitionKey" m) [
  | none ↦ []
  | some key ↦
      (if is_hot key
        then quoted "Global Secondary Index \"" key "\" is a known hot partition key" ∷ []
        else [])
      ++ (if projects_all m then quoted "GSI " key " uses ProjectionType ALL" ∷ [] else [])
]

unfoldable pub gsi_reasons : List (Assoc Json) → List String
gsi_reasons [] = []
gsi_reasons (m ∷ ms) = gsi_reason m ++ gsi_reasons ms

-- The text of a number is a parameter.
unfoldable pub validate_gsis : (ℕ → String) → List (Assoc Json) → List String
unfolding gsi_reasons
validate_gsis number ms =
    gsi_reasons ms
    ++ (if ltb 5 (length ms)
        then quoted "Table has " (number (length ms))
            " GSIs, exceeding the recommended maximum of 5"
          ∷ []
        else [])

unfoldable pub analyze_create_optimized_table :
    (ℕ → String) → String → (key_schema attributes gsis : List (Assoc Json)) → Assessment
unfolding validate_key_schema validate_attribute_definitions validate_gsis get_risk_level
    join_reasons
analyze_create_optimized_table number table key_schema attributes gsis =
    let reasons : List String =
      validate_key_schema key_schema
      ++ validate_attribute_definitions attributes
      ++ validate_gsis number gsis in
    record { table_name = table; level = get_risk_level reasons; reason = join_reasons reasons }
