-- ===== src/Handlers/Create.antt =====
-- createOptimizedTable of server/handlers.go, and the translation of its key schemas and indexes. A
-- Go map of attributes is a list of its entries; DynamoDB's answer is the attributes of the table.
pub mod Attributes
use mcp_server_dynamodb_sage.Prelude.{
  ℕ, String, Bool, true, false, not, ◌&&◌, Option, none, some, List, [], ◌∷◌, ◌++◌, Assoc, lookup,
  insert, any, str_eq, str_append, if◌then◌else◌,
}
use mcp_server_dynamodb_sage.Prelude.Int.{ℤ, pos, ltb_ℤ}
use mcp_server_dynamodb_sage.Server.Jobs.Execute.{CallToolResult}
use mcp_server_dynamodb_sage.Handlers.Effects.{
  Reply, error, reply, Throughput, KeyElement, SecondaryIndex, CreateTableInput, creates_table,
  Dynamo, M, goes, pure, return, success_result, error_result, say, audit, fail_audited,
}
use mcp_server_dynamodb_sage.Handlers.Tables.{table_subject, to_dynamo_tags, join_with}

pub record GsiArgs : Type 0 where
  pub index_name : String
  pub partition_key : String
  pub sort_key : String
  pub projection_type : String

pub record LsiArgs : Type 0 where
  pub index_name : String
  pub sort_key : String

pub record CreateTableArgs : Type 0 where
  pub table_name : String
  pub key_schema : List KeyElement
  pub attributes : List (String × String)
  pub billing_mode : String
  pub gsis : List GsiArgs
  pub lsis : List LsiArgs
  pub read_units : ℤ
  pub write_units : ℤ
  pub tags : List (String × List String)

abbrev pub positive_or_one : ℤ → ℤ
positive_or_one n = if ltb_ℤ (pos 0) n then n else pos 1

unfoldable pub get_provisioned_throughput :
    String → (read_units write_units : ℤ) → Option Throughput
get_provisioned_throughput billing_mode r w =
    if str_eq billing_mode "PROVISIONED"
    then some (record { read_units = positive_or_one r; write_units = positive_or_one w })
    else none

-- The loop of getKeySchema: every key that is not a hash key is a range key.
unfoldable pub key_elements : List KeyElement → List KeyElement
key_elements [] = []
key_elements (k ∷ ks) =
    record k { key_type = if str_eq k.key_type "HASH" then "HASH" else "RANGE" } ∷ key_elements ks

-- The hash key that getKeySchema finds, which is the last one, after the one found so far.
unfoldable pub hash_key_of : String → List KeyElement → String
hash_key_of found [] = found
hash_key_of found (k ∷ ks) = hash_key_of (if str_eq k.key_type "HASH" then k.name else found) ks

abbrev pub range_key : String → List KeyElement
range_key name = record { name = name; key_type = "RANGE" } ∷ []

abbrev pub hash_key : String → KeyElement
hash_key name = record { name = name; key_type = "HASH" }

unfoldable pub get_gsis : Option Throughput → List GsiArgs → List SecondaryIndex
get_gsis throughput [] = []
get_gsis throughput (g ∷ gs) =
    record {
      index_name = g.index_name;
      schema =
          hash_key g.partition_key ∷ (if str_eq g.sort_key "" then [] else range_key g.sort_key);
      projection = g.projection_type;
      throughput = throughput;
    }
    ∷ get_gsis throughput gs

unfoldable pub get_lsis : String → List LsiArgs → List SecondaryIndex
get_lsis hash [] = []
get_lsis hash (l ∷ ls) =
    record {
      index_name = l.index_name;
      schema = hash_key hash ∷ range_key l.sort_key;
      projection = "ALL";
      throughput = none;
    }
    ∷ get_lsis hash ls

-- The loop over the attributes that are provided: the first of a name counts.
unfoldable pub provide : List (String × String) → Assoc String → Assoc String
provide [] provided = provided
provide ((name, type) ∷ attributes) provided = elim (lookup name provided) [
  | none ↦ provide attributes (insert name type provided)
  | some _ ↦ provide attributes provided
]

abbrev pub type_or_s : Option String → String
type_or_s none = "S"
type_or_s (some type) = type

-- addAttribute
unfoldable pub add_attribute : Assoc String → String → Assoc String → Assoc String
add_attribute provided name defined = elim (lookup name defined) [
  | some _ ↦ defined
  | none ↦ insert name (type_or_s (lookup name provided)) defined
]

abbrev pub key_names : List KeyElement → List String
key_names [] = []
key_names (k ∷ ks) = k.name ∷ key_names ks

-- The names that the loops over the indexes add.
abbrev pub gsi_names : List GsiArgs → List String
gsi_names [] = []
gsi_names (g ∷ gs) =
    g.partition_key ∷ (if str_eq g.sort_key "" then [] else g.sort_key ∷ []) ++ gsi_names gs

abbrev pub lsi_names : List LsiArgs → List String
lsi_names [] = []
lsi_names (l ∷ ls) = l.sort_key ∷ lsi_names ls

unfoldable pub add_attributes : Assoc String → List String → Assoc String → Assoc String
unfolding add_attribute
add_attributes provided [] defined = defined
add_attributes provided (name ∷ names) defined =
    add_attributes provided names (add_attribute provided name defined)

unfoldable pub create_input : CreateTableArgs → CreateTableInput
unfolding add_attributes provide key_elements hash_key_of get_gsis get_lsis
    get_provisioned_throughput to_dynamo_tags
create_input args =
    let throughput =
      get_provisioned_throughput args.billing_mode args.read_units args.write_units in
    record {
      table_name = args.table_name;
      key_schema = key_elements args.key_schema;
      attributes =
          add_attributes (provide args.attributes [])
            (key_names args.key_schema ++ gsi_names args.gsis ++ lsi_names args.lsis) [];
      billing_mode = args.billing_mode;
      global_indexes = get_gsis throughput args.gsis;
      local_indexes = get_lsis (hash_key_of "" args.key_schema) args.lsis;
      throughput = throughput;
      tags = to_dynamo_tags args.tags;
    }

abbrev pub attribute_texts : Assoc String → List String
attribute_texts [] = []
attribute_texts ((name, type) ∷ attributes) =
    say (name ∷ " (" ∷ type ∷ ")" ∷ []) ∷ attribute_texts attributes

unfoldable pub create_table : Dynamo → CreateTableInput → M CallToolResult
unfolding success_result error_result
create_table db input w = elim (db.create_table w input) [
  | error e ↦
      fail_audited (table_subject "create_optimized_table" input.table_name)
        (say ("CreateTable " ∷ input.table_name ∷ " failed: " ∷ e ∷ [])) (creates_table input ∷ w)
  | reply attributes ↦ (
    audit "create_optimized_table" input.table_name "" false ∷ creates_table input ∷ w,
    goes (
        success_result (
          say (
            "Successfully created table \""
            ∷ input.table_name
            ∷ "\"\n Attribute definitions: "
            ∷ join_with ", " (attribute_texts attributes)
            ∷ []))),
  )
]

-- Local indexes want a table with a range key.
abbrev pub lacks_range_key : CreateTableArgs → Bool
lacks_range_key args = elim args.lsis [
  | [] ↦ false
  | l ∷ ls ↦ not (any (λ k. str_eq k.key_type "RANGE") args.key_schema)
]

unfoldable pub create_optimized_table : Dynamo → CreateTableArgs → M CallToolResult
unfolding create_table create_input error_result
create_optimized_table db args =
    if lacks_range_key args
    then return (
        error_result
          "LSI requires a composite primary key (HASH + RANGE). Add a sort key (keyType: \"RANGE\") to keySchema when using LSIs.")
    else create_table db (create_input args)
