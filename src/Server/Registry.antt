-- ===== src/Server/Registry.antt =====
-- The registration of the tools in server/tools.go: addTools and buildToolDefs. Of a definition, its
-- name, the properties with their types, and the required ones are kept; the descriptions, the
-- defaults, and the schemas within a property are left out.
pub mod Agree
pub mod Confirm
mod Tests
use mcp_server_dynamodb_sage.Prelude.{
  String, Bool, true, false, Option, none, some, List, [], ◌∷◌, ◌++◌, Assoc, str_eq, if◌then◌else◌,
}
use mcp_server_dynamodb_sage.Server.Tools

pub record ToolDef : Type 0 where
  pub name : String
  pub properties : Assoc String
  pub required : List String

abbrev pub tool_def : String → Assoc String → List String → ToolDef
tool_def name properties required = record {
  name = name;
  properties = properties;
  required = required;
}

unfoldable pub basic_defs : List ToolDef
basic_defs =
    tool_def "list_tables" ([]) ([])
    ∷ tool_def "describe_table" (("tableName", "string") ∷ []) ("tableName" ∷ [])
    ∷ tool_def "scan_table"
        (("tableName", "string")
          ∷ ("filterExpression", "string")
          ∷ ("projectionExpression", "string")
          ∷ ("expressionAttributeValues", "object")
          ∷ ("expressionAttributeNames", "object")
          ∷ ("indexName", "string")
          ∷ ("limit", "integer")
          ∷ ("exclusiveStartKey", "object")
          ∷ ("consistentRead", "boolean")
          ∷ ("confirmation", "boolean")
          ∷ [])
        ("tableName" ∷ [])
    ∷ tool_def "query_table"
        (("tableName", "string")
          ∷ ("indexName", "string")
          ∷ ("keyConditionExpression", "string")
          ∷ ("expressionAttributeValues", "object")
          ∷ ("expressionAttributeNames", "object")
          ∷ ("limit", "integer")
          ∷ ("exclusiveStartKey", "object")
          ∷ ("consistentRead", "boolean")
          ∷ [])
        ("tableName" ∷ "keyConditionExpression" ∷ "expressionAttributeValues" ∷ [])
    ∷ tool_def "put_item"
        (("tableName", "string") ∷ ("item", "object") ∷ ("confirmation", "boolean") ∷ [])
        ("tableName" ∷ "item" ∷ [])
    ∷ tool_def "get_item" (("tableName", "string") ∷ ("key", "object") ∷ [])
        ("tableName" ∷ "key" ∷ [])
    ∷ tool_def "update_item"
        (("tableName", "string")
          ∷ ("key", "object")
          ∷ ("updateExpression", "string")
          ∷ ("expressionAttributeNames", "object")
          ∷ ("expressionAttributeValues", "object")
          ∷ ("conditionExpression", "string")
          ∷ ("returnValues", "string")
          ∷ ("confirmation", "boolean")
          ∷ [])
        ("tableName" ∷ "key" ∷ "updateExpression" ∷ [])
    ∷ tool_def "delete_item"
        (("tableName", "string") ∷ ("key", "object") ∷ ("confirmation", "boolean") ∷ [])
        ("tableName" ∷ "key" ∷ [])
    ∷ tool_def "batch_get_items"
        (("tableName", "string") ∷ ("keys", "array") ∷ ("confirmation", "boolean") ∷ [])
        ("tableName" ∷ "keys" ∷ [])
    ∷ tool_def "batch_put_items"
        (("tableName", "string") ∷ ("items", "array") ∷ ("confirmation", "boolean") ∷ [])
        ("tableName" ∷ "items" ∷ [])
    ∷ tool_def "batch_delete_items"
        (("tableName", "string") ∷ ("keys", "array") ∷ ("confirmation", "boolean") ∷ [])
        ("tableName" ∷ "keys" ∷ [])
    ∷ tool_def "create_optimized_table"
        (("tableName", "string")
          ∷ ("keySchema", "array")
          ∷ ("attributeDefinitions", "array")
          ∷ ("billingMode", "string")
          ∷ ("readCapacityUnits", "integer")
          ∷ ("writeCapacityUnits", "integer")
          ∷ ("gsis", "array")
          ∷ ("lsis", "array")
          ∷ ("tags", "array")
          ∷ ("confirmation", "boolean")
          ∷ [])
        ("tableName" ∷ "keySchema" ∷ [])
    ∷ tool_def "delete_table" (("tableName", "string") ∷ ("confirmation", "boolean") ∷ [])
        ("tableName" ∷ [])
    ∷ tool_def "update_table"
        (("tableName", "string")
          ∷ ("billingMode", "string")
          ∷ ("provisionedThroughput", "object")
          ∷ ("attributeDefinitions", "array")
          ∷ ("globalSecondaryIndexUpdates", "array")
          ∷ ("tags", "array")
          ∷ ("confirmation", "boolean")
          ∷ [])
        ("tableName" ∷ [])
    ∷ tool_def "update_table_ttl"
        (("tableName", "string") ∷ ("attributeName", "string") ∷ ("enabled", "boolean") ∷ [])
        ("tableName" ∷ "enabled" ∷ "attributeName" ∷ [])
    ∷ tool_def "read_audit_logs"
        (("startTime", "string") ∷ ("endTime", "string") ∷ ("limit", "integer") ∷ []) ("limit" ∷ [])
    ∷ tool_def "get_job_result" (("jobId", "string") ∷ []) ("jobId" ∷ [])
    ∷ []

unfoldable pub rag_defs : List ToolDef
rag_defs =
    tool_def "ingest_document" (("tableName", "string") ∷ ("textField", "string") ∷ [])
      ("tableName" ∷ "textField" ∷ [])
    ∷ tool_def "search_collection"
        (("collectionName", "string")
          ∷ ("query", "string")
          ∷ ("limit", "integer")
          ∷ ("filter", "string")
          ∷ ("score_threshold", "number")
          ∷ [])
        ("collectionName" ∷ "query" ∷ "limit" ∷ [])
    ∷ []

-- The tools on documents are there where a pipeline is configured.
unfoldable pub build_tool_defs : (rag : Bool) → List ToolDef
unfolding basic_defs rag_defs
build_tool_defs rag = basic_defs ++ (if rag then rag_defs else [])

-- defsByName[name]
abbrev pub find_def : String → List ToolDef → Option ToolDef
find_def name [] = none
find_def name (d ∷ ds) = if str_eq d.name name then some d else find_def name ds

-- The switch of register, on the type of a handler's arguments: whether it is wrapped by
-- withRiskAnalysis.
abbrev pub is_wrapped : Tools.Tool → Bool
is_wrapped Tools.list_tables = false
is_wrapped Tools.describe_table = false
is_wrapped Tools.scan_table = true
is_wrapped Tools.put_item = true
is_wrapped Tools.query_table = false
is_wrapped Tools.get_item = false
is_wrapped Tools.update_item = true
is_wrapped Tools.delete_item = true
is_wrapped Tools.batch_get_items = true
is_wrapped Tools.batch_put_items = true
is_wrapped Tools.batch_delete_items = true
is_wrapped Tools.create_optimized_table = true
is_wrapped Tools.delete_table = true
is_wrapped Tools.update_table = true
is_wrapped Tools.update_table_ttl = false
is_wrapped Tools.read_audit_logs = false
is_wrapped Tools.get_job_result = false
is_wrapped Tools.ingest_document = true
is_wrapped Tools.search_collection = false

abbrev register : String → Tools.Tool → String × (Tools.Tool × Bool)
register name tool = (name, (tool, is_wrapped tool))

abbrev basic_tools : Assoc (Tools.Tool × Bool)
basic_tools =
    register "list_tables" Tools.list_tables
    ∷ register "describe_table" Tools.describe_table
    ∷ register "scan_table" Tools.scan_table
    ∷ register "put_item" Tools.put_item
    ∷ register "query_table" Tools.query_table
    ∷ register "get_item" Tools.get_item
    ∷ register "update_item" Tools.update_item
    ∷ register "delete_item" Tools.delete_item
    ∷ register "batch_get_items" Tools.batch_get_items
    ∷ register "batch_put_items" Tools.batch_put_items
    ∷ register "batch_delete_items" Tools.batch_delete_items
    ∷ register "create_optimized_table" Tools.create_optimized_table
    ∷ register "delete_table" Tools.delete_table
    ∷ register "update_table" Tools.update_table
    ∷ register "update_table_ttl" Tools.update_table_ttl
    ∷ register "read_audit_logs" Tools.read_audit_logs
    ∷ register "get_job_result" Tools.get_job_result
    ∷ []

abbrev rag_tools : Assoc (Tools.Tool × Bool)
rag_tools =
    register "ingest_document" Tools.ingest_document
    ∷ register "search_collection" Tools.search_collection
    ∷ []

-- The calls of register, in order.
unfoldable pub add_tools : (rag : Bool) → Assoc (Tools.Tool × Bool)
add_tools rag = basic_tools ++ (if rag then rag_tools else [])
