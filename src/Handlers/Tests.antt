-- ===== src/Handlers/Tests.antt =====
-- The handlers of server/handlers.go at concrete inputs.
use mcp_server_dynamodb_sage.Prelude.{
  ℕ, ◌+◌, ◌≤◌, String, ◌≡◌, refl, ap, inl, inr, Bool, true, false, none, some, [], ◌∷◌, Assoc, any,
  arith, length, lookup, str_eq, equal_fold, if◌then◌else◌,
}
use mcp_server_dynamodb_sage.Prelude.Int.{pos}
use mcp_server_dynamodb_sage.Engine.Values.{no_entries}
use mcp_server_dynamodb_sage.Engine.Guardrail.{
  validate_protected_table, validate_read_only_table, get_table_config, get_tags,
}
use mcp_server_dynamodb_sage.Handlers.Samples.{guard, values}
use mcp_server_dynamodb_sage.Handlers.Effects.{
  Reply, error, reply, Requests, Event, writes_batch, Trace, Dynamo, find_protected_tag,
  validate_protected_tag,
}
use mcp_server_dynamodb_sage.Handlers.Passwords.{find_password, hashed, hash_password_in_item}
use mcp_server_dynamodb_sage.Handlers.Passwords.Hashing.{hash_password_in_item_lem}
use mcp_server_dynamodb_sage.Handlers.Update.{find_match, password_alias}
use mcp_server_dynamodb_sage.Handlers.Batch.{
  total, prepare_items, batch_put_message, batch_put_items,
}
use mcp_server_dynamodb_sage.Handlers.Batch.Reported.{IsReported}
use mcp_server_dynamodb_sage.Handlers.Batch.Reports.{batch_put_items-IsReported}
use mcp_server_dynamodb_sage.Handlers.Create.{CreateTableArgs, create_input, type_or_s}
use mcp_server_dynamodb_sage.Handlers.Create.Attributes.{has, used, create_input_attributes}
use mcp_server_dynamodb_sage.Handlers.Shield.{
  IsRefused, deletes_table, is_shielded, handle, handle-IsRefused,
}

abbrev is_batch : Event → Bool
is_batch (writes_batch _ _) = true
is_batch _ = false

-- The first batch is left as a whole, and each that follows goes through.
abbrev leave : Bool → Requests → Reply Requests
leave true r = reply []
leave false r = reply r

-- A table that has the tag env:prod.
abbrev tagged : Dynamo
tagged = record {
  describe_table = λ w table. reply ("arn", []);
  list_tags = λ w arn. reply (("env", "prod") ∷ []);
  put_item = λ w table item. none;
  delete_item = λ w table key. reply no_entries;
  get_item = λ w table key. reply no_entries;
  update_item = λ w table input. reply no_entries;
  batch_write = λ w r. leave (any is_batch w) r;
  create_table = λ w input. reply input.attributes;
  delete_table = λ w table. none;
  update_table = λ w table input. reply (none, "ACTIVE");
  tag_resource = λ w arn tags. none;
  update_ttl = λ w table attribute enabled. none;
  describe_ttl = λ w table. none;
}

abbrev untagged : Dynamo
untagged = record tagged { list_tags = λ w arn. reply [] }

tagged-is_shielded : is_shielded tagged guard "orders" [] ≡ true
unfolding is_shielded validate_protected_table validate_read_only_table get_table_config
    validate_protected_tag find_protected_tag str_eq get_tags
tagged-is_shielded = refl

handle-IsRefused_example : IsRefused [] (handle values tagged guard (deletes_table "orders") [])
handle-IsRefused_example =
    handle-IsRefused values tagged guard (deletes_table "orders") [] tagged-is_shielded

abbrev left_total : Reply Requests → ℕ
left_total (error e) = 0
left_total (reply left) = total left

leave-bounded : (b : Bool) (r : Requests) → left_total (leave b r) ≤ total r
leave-bounded true r = omega arith
leave-bounded false r = omega arith

untagged-bounded :
    (w : Trace) (r left : Requests) → untagged.batch_write w r ≡ reply left → total left ≤ total r
untagged-bounded w r left h = omega (arith, leave-bounded (any is_batch w) r, ap left_total h)

abbrev user : Assoc String
user = ("name", "x") ∷ ("Password", "secret") ∷ []

batch_put_items-IsReported_example :
    let (requests, failed_items) = prepare_items values untagged guard "orders" (user ∷ []) in
    (length requests + length failed_items ≡ 1)
    × IsReported
        (length requests)
        (λ count n. batch_put_message values untagged guard "orders" count n failed_items)
        []
        (batch_put_items values untagged guard "orders" (user ∷ []) [])
batch_put_items-IsReported_example =
    batch_put_items-IsReported values untagged guard untagged-bounded "orders" (user ∷ []) []

abbrev hashed_user : Assoc String
hashed_user = ("name", "x") ∷ ("Password", "#secret") ∷ []

hash_user : hash_password_in_item values guard user ≡ hashed hashed_user
unfolding hash_password_in_item find_password equal_fold str_eq
hash_user = refl

hash_password_in_item_lem_example :
    (text : String) × (h : String) × (values.as_text "secret" ≡ some text)
    × (values.hash text ≡ reply h)
    × ((j : String)
        → lookup j hashed_user
          ≡ (if str_eq "Password" j then some (values.of_text h) else lookup j user))
unfolding equal_fold str_eq
hash_password_in_item_lem_example =
    hash_password_in_item_lem values guard user hashed_user "Password" "secret" refl refl
      (inl refl, (inr refl, tt)) refl hash_user

-- The regular expression of updateItem.
finds_placeholder : find_match false "SET a = :a, PassWord = :pw1, b = :b" ≡ some ":pw1"
unfolding find_match str_eq
finds_placeholder = refl

skips_longer_name : password_alias true [] "SET user_password = :pw" ≡ ""
unfolding password_alias str_eq
skips_longer_name = refl

uses_names : password_alias true (("#n", "name") ∷ ("#pw", "password") ∷ []) "" ≡ ":pw"
unfolding password_alias str_eq equal_fold
uses_names = refl

-- A table with a local index.
abbrev orders_table : CreateTableArgs
orders_table = record {
  table_name = "orders";
  key_schema =
      record { name = "id"; key_type = "HASH" } ∷ record { name = "at"; key_type = "RANGE" } ∷ [];
  attributes = ("at", "N") ∷ [];
  billing_mode = "PROVISIONED";
  gsis = [];
  lsis = record { index_name = "by_total"; sort_key = "total" } ∷ [];
  read_units = pos 0;
  write_units = pos 5;
  tags = [];
}

create_input_attributes_example : lookup "at" (create_input orders_table).attributes ≡ (
    if has "at" (used (create_input orders_table))
    then some (type_or_s (lookup "at" orders_table.attributes))
    else none)
unfolding str_eq
create_input_attributes_example = create_input_attributes orders_table "at" refl

defines_number : lookup "at" (create_input orders_table).attributes ≡ some "N"
unfolding create_input str_eq
defines_number = refl
