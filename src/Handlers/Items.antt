-- ===== src/Handlers/Items.antt =====
-- putItem, deleteItem and getItem of server/handlers.go.
use mcp_server_dynamodb_sage.Prelude.{
  String, true, false, Option, none, some, [], ◌∷◌, Assoc, str_append,
}
use mcp_server_dynamodb_sage.Engine.Values.{Item, no_entries, entry}
use mcp_server_dynamodb_sage.Engine.Guardrail.{Guardrail, validate_schema, scrub_items}
use mcp_server_dynamodb_sage.Risk.Writes.{Marshalled, marshalled, not_marshalled}
use mcp_server_dynamodb_sage.Server.Jobs.Execute.{CallToolResult}
use mcp_server_dynamodb_sage.Handlers.Effects.{
  error, reply, Event, puts, deletes, gets, notifies, Dynamo, M, returned, goes, pure, return,
  ◌>>=◌, ◌>>◌, record_event, success_result, error_result, say, audit, Subject, guarded,
}
use mcp_server_dynamodb_sage.Handlers.Passwords.{
  Values, Hashed, hashed, refused, hash_password_in_item,
}

-- recordNotification
abbrev pub notify : (table operation severity message : String) → Event
notify table operation severity message =
    notifies
      (record { table = table; operation = operation; severity = severity; message = message })

abbrev pub validation_error : String → String → String
validation_error suffix e = say ("Validation error: " ∷ e ∷ suffix ∷ [])

abbrev pub or_return : Marshalled → (String → String) → M Item
or_return (marshalled av) message = pure av
or_return (not_marshalled e) message = return (error_result (message e))

module _ {F V : Type 0} (v : Values V) (db : Dynamo) (g : Guardrail F) where
  abbrev pub put_subject : String → Subject
  put_subject table = record { operation = "put_item"; table = table; capacity_type = "WCU" }

  -- PutItem and what follows it.
  unfoldable pub put_marshalled : String → Item → M CallToolResult
  unfolding success_result error_result
  put_marshalled table av w = elim (db.put_item w table av) [
    | some e ↦ (
      audit "put_item" table "WCU" true ∷ puts table av ∷ w,
      returned (error_result (say ("Error when putting item to table " ∷ table ∷ ": " ∷ e ∷ []))),
    )
    | none ↦ (
      notify table "put_item" "success" "Item put successfully"
          ∷ audit "put_item" table "WCU" false
          ∷ puts table av
          ∷ w,
      goes (success_result (str_append "Successfully put item into table " table)),
    )
  ]

  -- validateSchema of server/handlers.go
  unfoldable pub schema_checked : String → Item → M (Unit {0})
  schema_checked table av = elim (validate_schema g table av) [
    | [] ↦ pure tt
    | e ∷ es ↦ return (
        error_result (
          say (
            "Error when validating schema for table "
            ∷ table
            ∷ ": "
            ∷ v.schema_errors (e ∷ es)
            ∷ [])))
  ]

  unfoldable pub put_hashed : String → Hashed V → M CallToolResult
  unfolding put_marshalled schema_checked
  put_hashed table (refused message) = return (error_result message)
  put_hashed table (hashed item) = do
    av ← or_return (v.marshal item) (str_append "Error marshaling item: ")
    schema_checked table av
    put_marshalled table av

  unfoldable pub put_given : String → Assoc V → M CallToolResult
  unfolding put_hashed hash_password_in_item
  put_given table [] =
      return (error_result (say ("Item to put into table " ∷ table ∷ " cannot be empty" ∷ [])))
  put_given table (f ∷ item) = put_hashed table (hash_password_in_item v g (f ∷ item))

  unfoldable pub put_item : String → Assoc V → M CallToolResult
  unfolding put_given
  put_item table item =
      guarded db g (put_subject table) (validation_error "") (λ e. e)
        (validation_error "; table item cannot be put") (pure tt) (put_given table item)

  abbrev pub delete_subject : String → Subject
  delete_subject table = record { operation = "delete_item"; table = table; capacity_type = "WCU" }

  -- ScrubItems on one item.
  unfoldable pub scrub_one : String → Assoc V → Assoc V
  scrub_one table item = elim ((scrub_items v.of_text g table (item ∷ [])).0) [
    | [] ↦ []
    | i ∷ is ↦ i
  ]

  abbrev pub deleted_message : String → Assoc V → Assoc V → String
  deleted_message table key old = say (
      "Successfully deleted item "
      ∷ v.json key
      ∷ " from table: "
      ∷ table
      ∷ ". Attributes: "
      ∷ v.json (scrub_one table old)
      ∷ [])

  -- After the answer of DeleteItem, whose old attributes are empty when there was no such item.
  unfoldable pub after_delete : String → Assoc V → Item → M CallToolResult
  unfolding scrub_one success_result error_result
  after_delete table key no_entries =
      return
        (error_result (say ("Item with key " ∷ v.json key ∷ " not found in table " ∷ table ∷ [])))
  after_delete table key (entry k a rest) = do
    let message = deleted_message table key (v.unmarshal (entry k a rest))
    record_event (notify table "delete_item" "success" message)
    pure (success_result message)

  unfoldable pub delete_marshalled : String → Assoc V → Item → M CallToolResult
  unfolding after_delete
  delete_marshalled table key av w = elim (db.delete_item w table av) [
    | error e ↦ (
      audit "delete_item" table "WCU" true ∷ deletes table av ∷ w,
      returned (
          error_result (
            say (
              "Error when deleting item " ∷ v.print key ∷ " from table " ∷ table ∷ ": " ∷ e ∷ []))),
    )
    | reply old ↦
        after_delete table key old (audit "delete_item" table "WCU" false ∷ deletes table av ∷ w)
  ]

  unfoldable pub delete_given : String → Assoc V → M CallToolResult
  unfolding delete_marshalled
  delete_given table key = do
    av ← or_return (v.marshal key) (λ e.
        say ("Error: Failed to marshal key " ∷ v.print key ∷ " for table " ∷ table ∷ ": " ∷ e ∷ []))
    delete_marshalled table key av

  -- The test for an empty key, which stands before the check of the tags.
  unfoldable pub key_given : String → Assoc V → M (Unit {0})
  unfolding error_result
  key_given table [] =
      return (error_result (str_append "Key is required for deleting an item from table " table))
  key_given table (f ∷ key) = pure tt

  unfoldable pub delete_item : String → Assoc V → M CallToolResult
  unfolding delete_given key_given
  delete_item table key =
      guarded db g (delete_subject table) (validation_error "") (validation_error "")
        (validation_error "; table item cannot be deleted") (key_given table key)
        (delete_given table key)

  -- After the answer of GetItem.
  unfoldable pub after_get : String → Assoc V → Assoc V → M CallToolResult
  unfolding scrub_one success_result error_result
  after_get table key [] =
      return
        (error_result (say ("Item with key " ∷ v.json key ∷ " not found in table " ∷ table ∷ [])))
  after_get table key (f ∷ item) = do
    record_event (audit "get_item" table "RCU" false)
    pure (
        success_result (
          say (
            "Successfully got item with key "
            ∷ v.json key
            ∷ " from table "
            ∷ table
            ∷ ": "
            ∷ v.json (scrub_one table (f ∷ item))
            ∷ [])))

  unfoldable pub get_marshalled : String → Assoc V → Item → M CallToolResult
  unfolding after_get
  get_marshalled table key av w = elim (db.get_item w table av) [
    | error e ↦ (
      audit "get_item" table "RCU" true ∷ gets table av ∷ w,
      returned (error_result (say ("Error when getting item from table " ∷ table ∷ ": " ∷ e ∷ []))),
    )
    | reply found ↦ after_get table key (v.unmarshal found) (gets table av ∷ w)
  ]

  -- The key is a Go map, which may be nil.
  unfoldable pub get_item : String → Option (Assoc V) → M CallToolResult
  unfolding get_marshalled
  get_item table none = return (
      error_result (
        say
          ("Error when getting item for key map[] from table " ∷ table ∷ ": Key is required" ∷ [])))
  get_item table (some key) = do
    av ← or_return (v.marshal key) (λ e.
        say ("Error when marshalling key " ∷ v.print key ∷ " for table " ∷ table ∷ ": " ∷ e ∷ []))
    get_marshalled table key av
