-- ===== src/Server/Dashboard.antt =====
-- The JSON endpoints of server/dashboard.go. What DynamoDB answers is a parameter; the metrics' proxy,
-- the stream of events and the embedded files are input and output alone.
pub mod Shown
mod Tests
use mcp_server_dynamodb_sage.Prelude.{
  ℕ, ◌⊎◌, inl, inr, String, Bool, true, false, Option, none, some, List, [], ◌∷◌, ◌++◌, Assoc,
  length, take, min, ltb, str_eq, trim_prefix, trim_suffix, if◌then◌else◌,
}
use mcp_server_dynamodb_sage.Prelude.Int.{ℤ, pos, pos_part, ltb_ℤ}
use mcp_server_dynamodb_sage.Prelude.Numerals.{atoi}
use mcp_server_dynamodb_sage.Engine.Values.{Item}
use mcp_server_dynamodb_sage.Engine.Guardrail.{Guardrail, scrub_items}
use mcp_server_dynamodb_sage.Handlers.Effects.{Reply, error, reply}

abbrev pub max_tables_to_display : ℕ
max_tables_to_display = 100

abbrev pub max_table_items_to_display : ℕ
max_table_items_to_display = 100

-- A response: JSON, or http.Error with its status.
pub data Response (A : Type 0) : Type 0 where
  json : A → Response A
  http_error : ℕ → String → Response A

-- dbStatus, kafkaStatus and llmStatus.
abbrev pub db_status : Reply (List String) → String
db_status (error e) = "error"
db_status (reply names) = "ok"

abbrev pub ping_status : Option (Option String) → String
ping_status none = "not_configured"
ping_status (some none) = "ok"
ping_status (some (some e)) = "error"

unfoldable pub health : Reply (List String) → (kafka llm : Option (Option String)) → Assoc String
health tables kafka llm =
    ("dynamodb", db_status tables) ∷ ("kafka", ping_status kafka) ∷ ("llm", ping_status llm) ∷ []

-- countTables: it does not ask for a second page.
unfoldable pub count_tables : Reply (List String) → ℕ
count_tables (error e) = 0
count_tables (reply names) = length names

pub record TableInfo : Type 0 where
  pub table_name : String
  pub item_count : ℤ
  pub size_bytes : ℤ
  pub status : String

-- The loop of listTablesInfo, which ends at the first table that cannot be described.
unfoldable pub describe_tables : (String → Reply TableInfo) → List String → List TableInfo ⊎ String
describe_tables describe [] = inl []
describe_tables describe (name ∷ names) =
    let rest = describe_tables describe names in
    elim (describe name) [
      | error e ↦ inr e
      | reply info ↦ elim rest [ inl infos ↦ inl (info ∷ infos) | inr e ↦ inr e ]
    ]

unfoldable pub list_tables_info :
    Reply (List String) → (String → Reply TableInfo) → List TableInfo ⊎ String
unfolding describe_tables
list_tables_info (error e) describe = inr e
list_tables_info (reply names) describe =
    describe_tables describe (take max_tables_to_display names)

-- What DescribeTable answers. A pointer may be nil; the names are there.
pub record KeySchemaEntry : Type 0 where
  pub attribute_name : String
  pub key_type : String

pub record IndexDescription : Type 0 where
  pub index_name : String
  pub key_schema : List KeySchemaEntry
  pub projection : Option String
  pub item_count : Option ℤ
  pub index_size_bytes : Option ℤ

pub record Table : Type 0 where
  pub table_name : String
  pub table_status : String
  pub key_schema : List KeySchemaEntry
  pub attribute_definitions : List (String × String)
  pub item_count : Option ℤ
  pub table_size_bytes : Option ℤ
  pub provisioned : Option (Option ℤ × Option ℤ)
  pub billing_mode : Option String
  pub global_indexes : List IndexDescription
  pub local_indexes : List IndexDescription

-- GSIInfo, with the type of the projection.
pub record GsiInfo : Type 0 where
  pub index_name : String
  pub key_schema : List KeySchemaEntry
  pub projection : Option String
  pub item_count : ℤ
  pub size_bytes : ℤ

pub record TableDescription : Type 0 where
  pub table_name : String
  pub status : String
  pub key_schema : List KeySchemaEntry
  pub attribute_definitions : List (String × String)
  pub item_count : ℤ
  pub size_bytes : ℤ
  pub throughput : Option (ℤ × ℤ)
  pub billing_mode : String
  pub gsis : List GsiInfo
  pub lsis : List GsiInfo
  pub ttl_attribute : String
  pub ttl_enabled : Bool

abbrev pub or_zero : Option ℤ → ℤ
or_zero none = pos 0
or_zero (some n) = n

unfoldable pub get_second_index : IndexDescription → GsiInfo
get_second_index i = record {
  index_name = i.index_name;
  key_schema = i.key_schema;
  projection = i.projection;
  item_count = or_zero i.item_count;
  size_bytes = or_zero i.index_size_bytes;
}

abbrev pub second_indexes : List IndexDescription → List GsiInfo
second_indexes [] = []
second_indexes (i ∷ is) = get_second_index i ∷ second_indexes is

abbrev pub throughput_of : Option (Option ℤ × Option ℤ) → Option (ℤ × ℤ)
throughput_of none = none
throughput_of (some (r, w)) = some (or_zero r, or_zero w)

abbrev pub billing_mode_of : Option String → Option (Option ℤ × Option ℤ) → String
billing_mode_of (some mode) provisioned = mode
billing_mode_of none (some t) = "PROVISIONED"
billing_mode_of none none = ""

-- The TTL's description: its status and its attribute. Nothing is known where the call fails.
pub record Ttl : Type 0 where
  pub status : String
  pub attribute : Option String

abbrev pub ttl_enabled_of : Option Ttl → Bool
ttl_enabled_of none = false
ttl_enabled_of (some t) = str_eq t.status "ENABLED"

abbrev pub ttl_attribute_of : Option Ttl → String
ttl_attribute_of none = ""
ttl_attribute_of (some t) = elim t.attribute [ none ↦ "" | some a ↦ a ]

unfoldable pub describe_page : Table → Option Ttl → TableDescription
unfolding get_second_index
describe_page t ttl = record {
  table_name = t.table_name;
  status = t.table_status;
  key_schema = t.key_schema;
  attribute_definitions = t.attribute_definitions;
  item_count = or_zero t.item_count;
  size_bytes = or_zero t.table_size_bytes;
  throughput = throughput_of t.provisioned;
  billing_mode = billing_mode_of t.billing_mode t.provisioned;
  gsis = second_indexes t.global_indexes;
  lsis = second_indexes t.local_indexes;
  ttl_attribute = ttl_attribute_of ttl;
  ttl_enabled = ttl_enabled_of ttl;
}

-- DescribeTable: the table, its absence, or another error.
pub data Described : Type 0 where
  table : Table → Described
  not_found : Described
  failed : String → Described

abbrev pub shown : Described → Option Ttl → Response TableDescription
shown (table t) ttl = json (describe_page t ttl)
shown not_found ttl = http_error 404 "table not found"
shown (failed e) ttl = http_error 500 e

unfoldable pub get_table_info :
    (path : String) → (String → Described) → (String → Option Ttl) → Response TableDescription
unfolding describe_page
get_table_info path describe describe_ttl =
    let name = trim_prefix path "/api/tables/" in
    if str_eq name ""
    then http_error 400 "missing table name"
    else shown (describe name) (describe_ttl name)

-- The limit that the query asks for, its default and its maximum.
abbrev pub asked_limit : Option ℤ → ℤ
asked_limit none = pos 20
asked_limit (some n) = if ltb_ℤ (pos 0) n then n else pos 20

unfoldable pub items_limit : String → ℕ
unfolding atoi
items_limit s = min (pos_part (asked_limit (atoi s))) max_table_items_to_display

abbrev pub items_table : String → String
items_table path = trim_suffix (trim_prefix path "/api/tables/") "/items"

module _ {F V : Type 0} (g : Guardrail F) (of_text : String → V)
    (unmarshal : List Item → List (Assoc V) ⊎ String) where
  abbrev pub shown_items : String → List (Assoc V) ⊎ String → Response (List (Assoc V))
  shown_items name (inr e) = http_error 500 e
  shown_items name (inl items) = json (scrub_items of_text g name items).0

  abbrev pub scanned : String → Reply (List Item) → Response (List (Assoc V))
  scanned name (error e) = http_error 500 e
  scanned name (reply items) = shown_items name (unmarshal items)

  -- The scan is asked for the table and the limit.
  unfoldable pub get_table_items :
      (path limit : String) → (String → ℕ → Reply (List Item)) → Response (List (Assoc V))
  unfolding items_limit
  get_table_items path limit scan =
      if str_eq (items_table path) ""
      then http_error 400 "missing table name"
      else scanned (items_table path) (scan (items_table path) (items_limit limit))
