-- ===== src/Risk/Advisor.antt =====
-- internal/risk/advisor.go: the suggestions that go beside the result of a tool. The fingerprint of a
-- scan, the text of a warning with a percent sign, and what DynamoDB answers are parameters.
pub mod Frequency
use mcp_server_dynamodb_sage.Prelude.{
  ℕ, suc, ◌+◌, ◌≡◌, String, Bool, true, false, not, ◌&&◌, ◌||◌, Option, none, some, List, [], ◌∷◌,
  ◌++◌, Assoc, lookup, insert, any, ltb, str_eq, str_append, contains, if◌then◌else◌,
}
use mcp_server_dynamodb_sage.Risk.Design.{quoted, is_hot}

-- A decoded JSON value, of which the advisor reads texts, objects and arrays.
mutual
  pub data Argument : Type 0 where
    text : String → Argument
    object : Fields → Argument
    array : Entries → Argument
    null : Argument
    scalar : Argument

  pub data Fields : Type 0 where
    no_fields : Fields
    field : String → Argument → Fields → Fields

  pub data Entries : Type 0 where
    no_values : Entries
    value : Argument → Entries → Entries

-- args[k], with the second result as an option.
unfoldable pub at : String → Fields → Option Argument
at k no_fields = none
at k (field j v rest) = if str_eq j k then some v else at k rest

-- args[k].(string): the text, empty if there is none. The source treats both alike.
abbrev pub text_value : Option Argument → String
text_value none = ""
text_value (some (text s)) = s
text_value (some (object m)) = ""
text_value (some (array vs)) = ""
text_value (some null) = ""
text_value (some scalar) = ""

unfoldable pub text_argument : String → Fields → String
unfolding at
text_argument k args = text_value (at k args)

abbrev pub hot_key_text : String → String
hot_key_text name =
    quoted "⚠\u{fe0f} SCHEMA WARNING: '" name
      "' is being flagged as a partition key. Using low-cardinality fields or status flags as Partition Keys creates high risk for 'Hot Partitions', leading to throttling under scale."

unfoldable pub hot_keys : Fields → List String
unfolding is_hot
hot_keys no_fields = []
hot_keys (field k v rest) =
    let others = hot_keys rest in if is_hot k then hot_key_text k ∷ others else others

abbrev pub keys_of : Option Argument → Fields
keys_of (some (object m)) = m
keys_of (some (text s)) = no_fields
keys_of (some (array vs)) = no_fields
keys_of (some null) = no_fields
keys_of (some scalar) = no_fields
keys_of none = no_fields

unfoldable pub analyze_key : Fields → List String
unfolding hot_keys at
analyze_key args = hot_keys (keys_of (at "key" args))

-- The counts of scanHistory, by fingerprint.
abbrev pub History : Type 0
History = Assoc ℕ

abbrev pub count_of : Option ℕ → ℕ
count_of none = 0
count_of (some n) = n

abbrev pub frequent_text : String → String
frequent_text filter =
    quoted "⚠\u{fe0f} SCAN WARNING: '" filter
      "' is being scanned frequently. This may be a sign of an inefficient query pattern. Consider using a Secondary Index to optimize this query."

-- validatMultipleScan: the tracker of the fingerprint counts one more.
unfoldable pub validate_multiple_scan :
    (String → String) → (table filter : String) → History → List String × History
validate_multiple_scan md5 table filter history =
    let fingerprint = md5 (quoted table "-" filter) in
    let count = suc (count_of (lookup fingerprint history)) in
    (if ltb 3 count then frequent_text filter ∷ [] else [], insert fingerprint count history)

-- What the advisor reads of a table's description: the names of its keys, the hash keys marked, and
-- its global secondary indexes, marked where they project all.
pub record Shape : Type 0 where
  pub key_schema : List (String × Bool)
  pub indexes : List (String × Bool)

abbrev pub anti_pattern_text : String → String
anti_pattern_text name =
    quoted
      "⚠\u{fe0f} CRITICAL ANTI-PATTERN: You are running a Scan with a filter containing the table's primary Partition Key ('"
      name
      "'). Change this tool call from scan_table to query_table and use KeyConditionExpression to decrease read capacity consumption by up to 99%."

-- The loop of validateAntiPatternScan, which ends at the first hit.
unfoldable pub anti_pattern : String → List (String × Bool) → List String
anti_pattern filter [] = []
anti_pattern filter ((name, hash) ∷ keys) =
    let rest = anti_pattern filter keys in
    if hash && contains filter name then anti_pattern_text name ∷ [] else rest

abbrev pub all_index_text : String → String
all_index_text index =
    quoted "⚠\u{fe0f} INFO: Scan against GSI '" index
      "' with ALL projection type. Consider using a Projection Expression to reduce the amount of data read from the table."

unfoldable pub scan_on_gsis : String → List (String × Bool) → List String
scan_on_gsis index [] = []
scan_on_gsis index ((name, all) ∷ indexes) =
    let rest = scan_on_gsis index indexes in
    if str_eq name index && all then all_index_text index ∷ [] else rest

-- DescribeTable: nothing is said when it fails.
abbrev pub validate_anti_pattern_scan : Option Shape → String → List String
validate_anti_pattern_scan none filter = []
validate_anti_pattern_scan (some shape) filter = anti_pattern filter shape.key_schema

abbrev pub validate_scan_on_gsis : Option Shape → String → List String
validate_scan_on_gsis none index = []
validate_scan_on_gsis (some shape) index = scan_on_gsis index shape.indexes

abbrev pub no_projection_text : String
no_projection_text =
    "⚠\u{fe0f} INFO: You are running a scan without a projection expression. Consider adding a projection expression to reduce the amount of data read from the table."

-- The trackers see a scan that names its table and has a filter.
unfoldable pub tracked :
    (String → String) → (table filter : String) → History → List String × History
unfolding validate_multiple_scan
tracked md5 table filter history =
    if str_eq filter "" || str_eq table ""
    then ([], history)
    else validate_multiple_scan md5 table filter history

module _ (md5 : String → String) (describe : String → Option Shape) where
  unfoldable pub analyze_scan : Fields → History → List String × History
  unfolding tracked anti_pattern scan_on_gsis text_argument
  analyze_scan args history =
      let table = text_argument "tableName" args in
      let filter = text_argument "filterExpression" args in
      let index = text_argument "indexName" args in
      let seen = tracked md5 table filter history in
      (
        seen.0
            ++ (if str_eq filter "" || str_eq table ""
                then []
                else validate_anti_pattern_scan (describe table) filter)
            ++ (if str_eq (text_argument "projectionExpression" args) "" && not (str_eq table "")
                then no_projection_text ∷ []
                else [])
            ++ (if str_eq index "" || str_eq table ""
                then []
                else validate_scan_on_gsis (describe table) index),
        seen.1,
      )

-- DescribeTimeToLive: its description's status, if there is one, or an error.
pub data TtlStatus : Type 0 where
  disabled other_status no_description describe_failed : TtlStatus

abbrev pub ttl_texts : String → TtlStatus → List String
ttl_texts table disabled =
    quoted "⚠\u{fe0f} INFO: Table '" table
      "' has TTL attribute in the item but TTL is disabled. Consider enabling TTL to automatically delete old items and reduce storage costs."
    ∷ []
ttl_texts table no_description =
    quoted "⚠\u{fe0f} INFO: Table '" table
      "' has TTL enabled but you did not include TTL attribute in the item. Consider adding TTL attribute to the item to automatically delete old items and reduce storage costs."
    ∷ []
ttl_texts table other_status = []
ttl_texts table describe_failed = []

unfoldable pub has_field : String → Fields → Bool
has_field k no_fields = false
has_field k (field j v rest) = str_eq j k || has_field k rest

abbrev pub ttl_keys : List String
ttl_keys =
    "ttl" ∷ "expiresAt" ∷ "expire_at" ∷ "expires_on" ∷ "expiry" ∷ "timeout" ∷ "expiry_date" ∷ []

abbrev pub has_ttl : Argument → Bool
has_ttl (object m) = any (λ k. has_field k m) ttl_keys
has_ttl (text s) = false
has_ttl (array vs) = false
has_ttl null = false
has_ttl scalar = false

abbrev pub any_ttl : Entries → Bool
any_ttl no_values = false
any_ttl (value v vs) = has_ttl v || any_ttl vs

-- hasTTLItem and hasTTLInItemsArray
abbrev pub has_ttl_item : Option Argument → Bool
has_ttl_item none = false
has_ttl_item (some v) = has_ttl v

abbrev pub has_ttl_in_items_array : Option Argument → Bool
has_ttl_in_items_array none = false
has_ttl_in_items_array (some (array vs)) = any_ttl vs
has_ttl_in_items_array (some (object m)) = false
has_ttl_in_items_array (some (text s)) = false
has_ttl_in_items_array (some null) = false
has_ttl_in_items_array (some scalar) = false

unfoldable pub analyze_ttl : (String → TtlStatus) → Fields → Bool → List String
unfolding text_argument
analyze_ttl describe_ttl args hit =
    let table = text_argument "tableName" args in
    if str_eq table "" then [] else if hit then ttl_texts table (describe_ttl table) else []

-- A request: the tool's name, and its arguments if they are a JSON object.
module _ (md5 : String → String) (describe : String → Option Shape)
    (describe_ttl : String → TtlStatus) where
  abbrev pub with_history : History → List String → List String × History
  with_history history texts = (texts, history)

  unfoldable pub advise : String → Fields → History → List String × History
  unfolding analyze_scan analyze_ttl at
  advise tool args history =
      if str_eq tool "scan_table"
      then analyze_scan md5 describe args history
      else with_history history (
          if str_eq tool "put_item"
          then analyze_ttl describe_ttl args (has_ttl_item (at "item" args))
          else if str_eq tool "batch_put_items"
          then analyze_ttl describe_ttl args (has_ttl_in_items_array (at "items" args))
          else [])

  unfoldable pub track_and_advise : String → Option Fields → History → List String × History
  unfolding analyze_key advise
  track_and_advise tool none history = ([], history)
  track_and_advise tool (some args) history =
      let (texts, after) = advise tool args history in (analyze_key args ++ texts, after)
