-- ===== src/Handlers/Effects/Inputs.antt =====
-- What the handlers of server/handlers.go hand to DynamoDB, to the audit log and to the board of
-- notifications.
use mcp_server_dynamodb_sage.Prelude.{String, Bool, Option, List, Assoc}
use mcp_server_dynamodb_sage.Prelude.Int.{ℤ}
use mcp_server_dynamodb_sage.Engine.Values.{Item}
use mcp_server_dynamodb_sage.Engine.Guardrail.{WriteRequest}

-- Requests by table: RequestItems and UnprocessedItems.
abbrev pub Requests : Type 0
Requests = Assoc (List WriteRequest)

pub record AuditEntry : Type 0 where
  pub operation : String
  pub table : String
  pub capacity_type : String
  pub failed : Bool

pub record Notification : Type 0 where
  pub table : String
  pub operation : String
  pub severity : String
  pub message : String

-- dynamodb.UpdateItemInput, without the table and what it returns of capacities.
pub record ItemUpdate : Type 0 where
  pub key : Item
  pub names : Assoc String
  pub values : Option Item
  pub condition : Option String
  pub update : Option String
  pub return_values : Option String

pub record Throughput : Type 0 where
  pub read_units : ℤ
  pub write_units : ℤ

-- types.GlobalSecondaryIndexUpdate: each action by a text of its own.
pub record IndexUpdate : Type 0 where
  pub create : Option String
  pub update : Option String
  pub delete : Option String

-- dynamodb.UpdateTableInput, without the table.
pub record TableUpdate : Type 0 where
  pub billing_mode : Option String
  pub throughput : Option Throughput
  pub index_updates : List IndexUpdate
  pub attributes : List (String × String)

-- types.KeySchemaElement
pub record KeyElement : Type 0 where
  pub name : String
  pub key_type : String

-- types.GlobalSecondaryIndex, and types.LocalSecondaryIndex, which has no throughput.
pub record SecondaryIndex : Type 0 where
  pub index_name : String
  pub schema : List KeyElement
  pub projection : String
  pub throughput : Option Throughput

-- dynamodb.CreateTableInput
pub record CreateTableInput : Type 0 where
  pub table_name : String
  pub key_schema : List KeyElement
  pub attributes : Assoc String
  pub billing_mode : String
  pub global_indexes : List SecondaryIndex
  pub local_indexes : List SecondaryIndex
  pub throughput : Option Throughput
  pub tags : List (String × String)

-- dynamodb.QueryInput and dynamodb.ScanInput
pub record ReadInput : Type 0 where
  pub condition : Option String
  pub projection : Option String
  pub filter : Option String
  pub index_name : Option String
  pub names : Assoc String
  pub values : Option Item
  pub limit : ℤ
  pub start_key : Option Item
  pub consistent : Option Bool
