-- ===== src/Engine/Guardrail.antt =====
-- internal/engine/guardrails.go: the checks of a request against the configuration.
pub mod Limit
pub mod Scrub
pub mod Tables
pub mod Schema
pub mod Batch
use Prim.Native.String.{◌++◌ as str_append}
use mcp_server_dynamodb_sage.Prelude.{
  ℕ, ◌+◌, ◌*◌, ◌/◌, ◌-◌, String, Bool, true, false, not, ◌&&◌, ◌||◌, Option, none, some, List, [],
  ◌∷◌, ◌++◌, Assoc, lookup, insert, any, str_eq, equal_fold, ltb, if◌then◌else◌, map,
}
use mcp_server_dynamodb_sage.Prelude.Int.{ℤ, pos, leb_ℤ, ltb_ℤ}
use mcp_server_dynamodb_sage.Engine.Config.{AppConfig, TableConfig}
use mcp_server_dynamodb_sage.Engine.Values.{
  AttributeValue, member_s, member_n, member_b, member_bool, member_null, member_ss, member_ns,
  member_bs, member_l, member_m, Item, no_entries, entry, estimated_size,
}

abbrev pub max_individual_size : ℕ
max_individual_size = 400 * 1024

abbrev pub max_batch_size : ℕ
max_batch_size = 16 * 1024 * 1024

pub record Guardrail (F : Type 0) : Type 0 where
  pub protected_table : Assoc Bool
  pub config : AppConfig F

-- The loop of NewGuardrail.
unfoldable pub protect : List String → Assoc Bool → Assoc Bool
protect [] table = table
protect (t ∷ ts) table = protect ts (insert t true table)

-- The loop of getTableConfig: the first table of that name.
unfoldable pub find_table : List TableConfig → String → Option TableConfig
find_table [] name = none
find_table (t ∷ ts) name = if str_eq t.name name then some t else find_table ts name

-- The loops of isSensitiveField and isPIIField.
unfoldable pub folds_to_any : String → List String → Bool
folds_to_any k names = any (equal_fold k) names

-- The switch of matchType.
unfoldable pub match_type : AttributeValue → String → Bool
match_type (member_s _) expected = str_eq expected "S"
match_type (member_n _) expected = str_eq expected "N"
match_type (member_b _) expected = str_eq expected "B"
match_type (member_bool _) expected = str_eq expected "BOOL"
match_type (member_null _) expected = str_eq expected "NULL"
match_type (member_ss _) expected = str_eq expected "SS"
match_type (member_ns _) expected = str_eq expected "NS"
match_type (member_bs _) expected = str_eq expected "BS"
match_type (member_l _) expected = str_eq expected "L"
match_type (member_m _) expected = str_eq expected "M"

-- The loop of ValidateSchema: the fields of the wrong type, with the type expected.
unfoldable pub schema_errors : Assoc String → Item → List (String × String)
schema_errors columns no_entries = []
schema_errors columns (entry key v rest) =
    let others = schema_errors columns rest in
    elim (lookup key columns) [
      | none ↦ others
      | some expected ↦ if match_type v expected then others else (key, expected) ∷ others
    ]

-- What EnforceLimit says beside the limit: the two numbers of its message, if there is one.
pub data Warning : Type 0 where
  no_warning : Warning
  lowered_to : ℤ → ℤ → Warning

-- The put or delete request that a types.WriteRequest holds.
pub data WriteRequest : Type 0 where
  put : Item → WriteRequest
  delete : Item → WriteRequest
  empty : WriteRequest

unfoldable pub request_size : WriteRequest → ℕ
request_size (put item) = estimated_size item
request_size (delete key) = estimated_size key
request_size empty = 0

pub data BatchCheck : Type 0 where
  fits item_too_large batch_too_large : BatchCheck

-- The loop of ValidateBatchSize, with the size so far.
unfoldable pub check_requests : ℕ → List WriteRequest → BatchCheck
check_requests batch_size [] = if ltb max_batch_size batch_size then batch_too_large else fits
check_requests batch_size (r ∷ rs) =
    if ltb max_individual_size (request_size r)
    then item_too_large
    else check_requests (batch_size + request_size r) rs

unfoldable pub validate_batch_size : List WriteRequest → BatchCheck
unfolding check_requests
validate_batch_size requests = check_requests 0 requests

-- math.Ceil(float64(size) / float64(page)): exact, since a size is far below 2^53.
abbrev pub pages : ℕ → ℕ → ℕ
pages size page = (size + (page - 1)) / page

-- GetEstimatedRCU, in half units.
unfoldable pub estimated_half_rcu : Item → Bool → ℕ
estimated_half_rcu item consistent =
    let rcu = pages (estimated_size item) 4096 in
    let halves = if consistent then rcu * 2 else rcu in if ltb halves 1 then 1 else halves

-- GetEstimatedWCU
unfoldable pub estimated_wcu : Item → ℕ
estimated_wcu item = let wcu = pages (estimated_size item) 1024 in if ltb wcu 1 then 1 else wcu

-- fmt.Sprintf("%s:[REDACTED]", field)
abbrev pub redacted : String → String
redacted k = str_append k ":[REDACTED]"

module _ {F : Type 0} where
  unfoldable pub new_guardrail : AppConfig F → Guardrail F
  unfolding protect
  new_guardrail config = record {
    protected_table = protect config.protected_tables [];
    config = config;
  }

  unfoldable pub get_table_config : Guardrail F → String → Option TableConfig
  unfolding find_table
  get_table_config g name = find_table g.config.tables name

  -- The two checks of a table: `true` is an error.
  unfoldable pub validate_read_only_table : Guardrail F → String → Bool
  validate_read_only_table g name = elim (get_table_config g name) [
    | none ↦ false
    | some t ↦ t.read_only
  ]

  unfoldable pub validate_protected_table : Guardrail F → String → Bool
  validate_protected_table g name = elim (lookup name g.protected_table) [
    | none ↦ false
    | some _ ↦ true
  ]

  -- `true` is an error
  unfoldable pub validate_capacity_units : Guardrail F → ℤ → Bool
  validate_capacity_units g cu = ltb_ℤ g.config.risk_thresholds.max_throughput_increase cu

  unfoldable pub validate_schema : Guardrail F → String → Item → List (String × String)
  validate_schema g name item = elim (get_table_config g name) [
    | none ↦ []
    | some t ↦ if t.enforce_schema then schema_errors t.columns item else []
  ]

  unfoldable pub enforce_limit : Guardrail F → ℤ → ℤ × Warning
  enforce_limit g limit =
      let limits = g.config.global_limits in
      let asked = if leb_ℤ limit (pos 0) then limits.default_limit else limit in
      if ltb_ℤ limits.max_limit asked
      then (limits.max_limit, lowered_to limits.max_limit limits.max_limit)
      else (asked, no_warning)

  unfoldable pub get_tags : Guardrail F → String → List String
  get_tags g name = elim (lookup name g.config.protected_tags) [ none ↦ [] | some vs ↦ vs ]

  unfoldable pub is_sensitive_field : Guardrail F → String → Bool
  is_sensitive_field g k = folds_to_any k g.config.sensitive_fields

  unfoldable pub is_pii_field : Guardrail F → String → String → Bool
  is_pii_field g name k = elim (get_table_config g name) [
    | none ↦ false
    | some t ↦ folds_to_any k t.pii_fields
  ]

  -- CheckTablePIIFields and GetSensitiveFields, over any type of values.
  module _ {V : Type 0} where
    unfoldable pub check_table_pii_fields : Guardrail F → String → Assoc V → List String
    check_table_pii_fields g name [] = []
    check_table_pii_fields g name ((k, _) ∷ fields) =
        let rest = check_table_pii_fields g name fields in
        if is_pii_field g name k then k ∷ rest else rest

    unfoldable pub get_sensitive_fields : Guardrail F → Assoc V → List String
    get_sensitive_fields g [] = []
    get_sensitive_fields g ((k, _) ∷ fields) =
        let rest = get_sensitive_fields g fields in
        if is_sensitive_field g k then k ∷ rest else rest

  unfoldable pub is_protected_field : Guardrail F → String → String → Bool
  is_protected_field g name k = is_sensitive_field g k || is_pii_field g name k

  -- ScrubItems. A map[string]any has values of an abstract type, in which `of_text` embeds texts;
  -- the flag `piid` is the second result.
  module _ {V : Type 0} (of_text : String → V) where
    unfoldable pub scrub_fields : Guardrail F → String → Assoc V → Bool → Assoc V × Bool
    scrub_fields g name [] piid = ([], piid)
    scrub_fields g name ((k, v) ∷ fields) piid =
        let hit = is_protected_field g name k in
        let (rest, flag) = scrub_fields g name fields (if hit then true else piid) in
        ((k, if hit then of_text (redacted k) else v) ∷ rest, flag)

    unfoldable pub scrub_from : Guardrail F → String → List (Assoc V) → Bool → List (Assoc V) × Bool
    scrub_from g name [] piid = ([], piid)
    scrub_from g name (item ∷ items) piid =
        let (item', flag) = scrub_fields g name item piid in
        let (items', flag') = scrub_from g name items flag in (item' ∷ items', flag')

    unfoldable pub scrub_items : Guardrail F → String → List (Assoc V) → List (Assoc V) × Bool
    scrub_items g name items = scrub_from g name items false
