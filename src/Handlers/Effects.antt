-- ===== src/Handlers/Effects.antt =====
-- What a handler of server/handlers.go does besides its result: its calls of DynamoDB, its entries
-- in the audit log, and its notifications, in one trace with the latest first. What DynamoDB answers
-- depends on all that came before, so each of its answers is a parameter over the trace. A handler
-- may return early. Metrics and the capacity that DynamoDB reports are left out.
mod Inputs
pub use Inputs.*
use mcp_server_dynamodb_sage.Prelude.{
  String, Bool, true, false, Option, none, some, List, [], ◌∷◌, Assoc, any, str_eq, str_append,
  if◌then◌else◌,
}
use mcp_server_dynamodb_sage.Prelude.Int.{ℤ}
use mcp_server_dynamodb_sage.Engine.Values.{Item}
use mcp_server_dynamodb_sage.Engine.Guardrail.{
  Guardrail, WriteRequest, get_tags, validate_protected_table, validate_read_only_table,
}
use mcp_server_dynamodb_sage.Server.Jobs.Execute.{CallToolResult, text_content}

-- The error of a call of DynamoDB, or what it answers.
pub data Reply (A : Type 0) : Type 0 where
  error : String → Reply A
  reply : A → Reply A

pub data Event : Type 0 where
  describes : String → Event
  lists_tags : String → Event
  puts : String → Item → Event
  deletes : String → Item → Event
  gets : String → Item → Event
  reads : (operation table : String) → ReadInput → Event
  updates_item : String → ItemUpdate → Event
  writes_batch : Requests → Reply Requests → Event
  updates_table : String → TableUpdate → Event
  tags_resource : (arn : String) → List (String × String) → Event
  creates_table : CreateTableInput → Event
  deletes_table : String → Event
  updates_ttl : (table attribute : String) → Bool → Event
  describes_ttl : String → Event
  audits : AuditEntry → Event
  notifies : Notification → Event

-- Whether an event is a call that changes a table.
abbrev pub is_write : Event → Bool
is_write (puts _ _) = true
is_write (deletes _ _) = true
is_write (updates_item _ _) = true
is_write (writes_batch _ _) = true
is_write (updates_table _ _) = true
is_write (tags_resource _ _) = true
is_write (creates_table _) = true
is_write (deletes_table _) = true
is_write (updates_ttl _ _ _) = true
is_write _ = false

abbrev pub Trace : Type 0
Trace = List Event

-- What DynamoDB answers after a trace.
pub record Dynamo : Type 0 where
  pub describe_table : Trace → String → Reply (String × List String)  -- the ARN and the attributes
  pub list_tags : Trace → String → Reply (List (String × String))
  pub put_item : Trace → String → Item → Option String
  pub delete_item : Trace → String → Item → Reply Item  -- the old attributes
  pub get_item : Trace → String → Item → Reply Item
  pub update_item : Trace → String → ItemUpdate → Reply Item  -- the attributes asked for
  pub batch_write : Trace → Requests → Reply Requests  -- what is left unprocessed
  pub create_table : Trace → CreateTableInput → Reply (Assoc String)  -- the attributes, with types
  pub delete_table : Trace → String → Option String
  pub update_table : Trace → String → TableUpdate → Reply (Option String × String)  -- ARN, status
  pub tag_resource : Trace → String → List (String × String) → Option String
  pub update_ttl : Trace → String → String → Bool → Option String
  pub describe_ttl : Trace → String → Option String  -- the status

-- A handler in progress: it has returned, or goes on with a value.
pub data Step (A : Type 0) : Type 0 where
  returned : CallToolResult → Step A
  goes : A → Step A

abbrev pub M : Type 0 → Type 0
M A = Trace → Trace × Step A

abbrev pub pure : {A : Type 0} → A → M A
pure a w = (w, goes a)

abbrev pub return : {A : Type 0} → CallToolResult → M A
return r w = (w, returned r)

abbrev pub resume : {A B : Type 0} → (A → M B) → Trace × Step A → Trace × Step B
resume f (w, returned r) = (w, returned r)
resume f (w, goes a) = f a w

infixl 5 ◌>>=◌ ◌>>◌
abbrev pub ◌>>=◌ : {A B : Type 0} → M A → (A → M B) → M B
◌>>=◌ m f w = resume f (m w)

abbrev pub ◌>>◌ : {B : Type 0} → M (Unit {0}) → M B → M B
m >> k = m >>= λ _. k

abbrev pub record_event : Event → M (Unit {0})
record_event e w = (e ∷ w, goes tt)

-- What the caller gets.
abbrev pub result_of : Step CallToolResult → CallToolResult
result_of (returned r) = r
result_of (goes r) = r

unfoldable pub success_result : String → CallToolResult
success_result message = record { content = text_content message ∷ []; is_error = false }

unfoldable pub error_result : String → CallToolResult
error_result message = record { content = text_content message ∷ []; is_error = true }

-- Texts in a row, as fmt.Sprintf puts them.
abbrev pub say : List String → String
say [] = ""
say (s ∷ []) = s
say (s ∷ t ∷ ss) = str_append s (say (t ∷ ss))

-- sendAuditLog: the last argument is whether there is an error.
abbrev pub audit : (operation table capacity_type : String) → (failed : Bool) → Event
audit operation table capacity_type failed = audits (record {
  operation = operation;
  table = table;
  capacity_type = capacity_type;
  failed = failed;
})

-- The operation of a handler, its table, and the capacity type of its audit entries.
pub record Subject : Type 0 where
  pub operation : String
  pub table : String
  pub capacity_type : String

-- An audit entry for an error, and the result.
abbrev pub fail_audited : {A : Type 0} → Subject → String → M A
fail_audited s message = do
  record_event (audit s.operation s.table s.capacity_type true)
  return (error_result message)

-- The two loops of validateProtectedTag over the tags and the protected values of each.
unfoldable pub find_protected_tag :
    {F : Type 0} → Guardrail F → List (String × String) → Option (String × String)
find_protected_tag g [] = none
find_protected_tag g ((k, v) ∷ tags) =
    let rest = find_protected_tag g tags in
    if any (λ p. str_eq p v) (get_tags g k) then some (k, v) else rest

module _ {F : Type 0} (db : Dynamo) (g : Guardrail F) where
  abbrev pub tag_error : String → Option (String × String) → Option String
  tag_error table none = none
  tag_error table (some (k, v)) =
      some (say ("protected tag " ∷ k ∷ ":" ∷ v ∷ " exists for table " ∷ table ∷ []))

  abbrev pub tags_error : String → Reply (List (String × String)) → Option String
  tags_error table (error e) = some (str_append "error when listing tags of resource: " e)
  tags_error table (reply tags) = tag_error table (find_protected_tag g tags)

  abbrev pub listed_error : String → Trace → Reply (String × List String) → Trace × Option String
  listed_error table w (error e) = (w, some (str_append "error when describing table: " e))
  listed_error table w (reply (arn, attributes)) =
      (lists_tags arn ∷ w, tags_error table (db.list_tags w arn))

  unfoldable pub validate_protected_tag : String → Trace → Trace × Option String
  unfolding find_protected_tag
  validate_protected_tag table w =
      listed_error table (describes table ∷ w) (db.describe_table w table)

  -- The three checks that a handler that writes begins with. Each has its own text for the error.
  abbrev pub protected_error : String → String
  protected_error table = say ("table " ∷ table ∷ " is protected and cannot be modified" ∷ [])

  abbrev pub read_only_error : String → String
  read_only_error table = say ("table " ∷ table ∷ " is read-only" ∷ [])

  unfoldable pub check_protected : Subject → (String → String) → M (Unit {0})
  check_protected s message w =
      if validate_protected_table g s.table
      then fail_audited s (message (protected_error s.table)) w
      else (w, goes tt)

  unfoldable pub check_read_only : Subject → (String → String) → M (Unit {0})
  check_read_only s message w =
      if validate_read_only_table g s.table
      then fail_audited s (message (read_only_error s.table)) w
      else (w, goes tt)

  abbrev pub tags_checked :
      Subject → (String → String) → Trace × Option String → Trace × Step (Unit {0})
  tags_checked s message (w, none) = (w, goes tt)
  tags_checked s message (w, some text) = fail_audited s (message text) w

  unfoldable pub check_tags : Subject → (String → String) → M (Unit {0})
  unfolding validate_protected_tag
  check_tags s message w = tags_checked s message (validate_protected_tag s.table w)

  -- What each handler that writes begins with, with a test of its arguments before the third check.
  unfoldable pub guarded :
      Subject → (m1 m2 m3 : String → String) → M (Unit {0}) → M CallToolResult → M CallToolResult
  unfolding check_protected check_read_only check_tags
  guarded s m1 m2 m3 test k = do
    check_protected s m1
    check_read_only s m2
    test
    check_tags s m3
    k
