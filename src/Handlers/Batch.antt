-- ===== src/Handlers/Batch.antt =====
-- batchPutItems and batchDeleteItems of server/handlers.go. The requests go out in batches of 25,
-- each in at most three calls, of which every one after the first asks for what the one before left
-- unprocessed.
pub mod Counts
pub mod Reported
pub mod Reports
use mcp_server_dynamodb_sage.Prelude.{
  ℕ, zero, suc, ◌+◌, String, Bool, true, false, Option, none, some, List, [], ◌∷◌, Assoc, length,
  ◌⊎◌, inl, inr, map, ltb, str_append, if◌then◌else◌,
}
use mcp_server_dynamodb_sage.Prelude.Chunks.{chunks}
use mcp_server_dynamodb_sage.Prelude.Int.{ℤ, pos, ◌-ℤ◌}
use mcp_server_dynamodb_sage.Engine.Values.{Item}
use mcp_server_dynamodb_sage.Engine.Guardrail.{
  Guardrail, WriteRequest, put, delete, BatchCheck, fits, item_too_large, batch_too_large,
  validate_batch_size, validate_schema,
}
use mcp_server_dynamodb_sage.Risk.Writes.{Marshalled, marshalled, not_marshalled}
use mcp_server_dynamodb_sage.Server.Jobs.Execute.{CallToolResult}
use mcp_server_dynamodb_sage.Handlers.Effects.{
  Reply, error, reply, Requests, writes_batch, Trace, Dynamo, M, Step, returned, goes, pure, return,
  ◌>>=◌, ◌>>◌, record_event, success_result, error_result, say, audit, Subject, fail_audited,
  guarded,
}
use mcp_server_dynamodb_sage.Handlers.Passwords.{
  Values, Hashed, hashed, refused, hash_password_in_item,
}
use mcp_server_dynamodb_sage.Handlers.Items.{validation_error}

abbrev pub batch_size : ℕ
batch_size = 25

-- How many requests there are, in all the tables.
abbrev pub total : Requests → ℕ
total [] = 0
total ((_, rs) ∷ tables) = length rs + total tables

-- What came of a batch: how many requests are left unprocessed after the last call, or an error.
pub data Sent : Type 0 where
  unprocessed : ℕ → Sent
  failed : String → Sent

-- After a call that left some requests: the tries that are left, and what trying again gives.
abbrev pub after_try : ℕ → Requests → Trace → Trace × Sent → Trace × Sent
after_try k [] w again = (w, unprocessed 0)
after_try zero (l ∷ ls) w again = (w, unprocessed (total (l ∷ ls)))
after_try (suc _) (l ∷ ls) w again = again

-- The loop over the tries.
unfoldable pub send : Dynamo → ℕ → Requests → Trace → Trace × Sent
send db zero requests w = (w, unprocessed 0)
send db (suc k) requests w = elim (db.batch_write w requests) [
  | error e ↦ (writes_batch requests (error e) ∷ w, failed e)
  | reply left ↦
      let w' = writes_batch requests (reply left) ∷ w in after_try k left w' (send db k left w')
]

abbrev pub size_error : BatchCheck → Option String
size_error fits = none
size_error item_too_large = some "item size exceeds limit of 400KB"
size_error batch_too_large = some "batch size exceeds limit of 16MB"

module _ (db : Dynamo) (s : Subject) (doing : String) where
  abbrev pub batch_failed : String → String
  batch_failed e = say ("Error when batch " ∷ doing ∷ s.table ∷ ": " ∷ e ∷ [])

  abbrev pub check_size : List WriteRequest → M (Unit {0})
  check_size b w = elim (size_error (validate_batch_size b)) [
    | none ↦ (w, goes tt)
    | some e ↦ fail_audited s (batch_failed e) w
  ]

  abbrev pub sent : Trace × Sent → Trace × Step ℕ
  sent (w, unprocessed n) = (w, goes n)
  sent (w, failed e) = fail_audited s (batch_failed e) w

  -- The loop over the batches, with the number of requests left unprocessed so far.
  unfoldable pub send_chunks : List (List WriteRequest) → ℕ → M ℕ
  unfolding send
  send_chunks [] so_far = pure so_far
  send_chunks (b ∷ bs) so_far = do
    check_size b
    n ← λ w. sent (send db 3 ((s.table, b) ∷ []) w)
    send_chunks bs (so_far + n)

  unfoldable pub send_all : List WriteRequest → M ℕ
  unfolding send_chunks
  send_all rs = do
    n ← send_chunks (chunks (suc (length rs)) batch_size rs) 0
    record_event (audit s.operation s.table s.capacity_type false)
    pure n

module _ {F V : Type 0} (v : Values V) (db : Dynamo) (g : Guardrail F) where
  abbrev pub batch_subject : (operation table : String) → Subject
  batch_subject operation table = record {
    operation = operation;
    table = table;
    capacity_type = "WCU";
  }

  -- An item of batchPutItems: its request, or the item as it is when it fails, which hashing may
  -- have changed in place.
  abbrev pub request_of : String → Assoc V → Marshalled → WriteRequest ⊎ Assoc V
  request_of table item (not_marshalled e) = inr item
  request_of table item (marshalled av) = elim (validate_schema g table av) [
    | [] ↦ inl (put av)
    | e ∷ es ↦ inr item
  ]

  abbrev pub request_hashed : String → Assoc V → Hashed V → WriteRequest ⊎ Assoc V
  request_hashed table item (refused _) = inr item
  request_hashed table item (hashed item') = request_of table item' (v.marshal item')

  abbrev pub add_request :
      WriteRequest ⊎ Assoc V
      → List WriteRequest × List (Assoc V)
      → List WriteRequest × List (Assoc V)
  add_request (inl r) (requests, failed_items) = (r ∷ requests, failed_items)
  add_request (inr item) (requests, failed_items) = (requests, item ∷ failed_items)

  -- The loop over the items: the requests, and the items that failed.
  unfoldable pub prepare_items : String → List (Assoc V) → List WriteRequest × List (Assoc V)
  unfolding hash_password_in_item
  prepare_items table [] = ([], [])
  prepare_items table (item ∷ items) =
      add_request (request_hashed table item (hash_password_in_item v g item))
        (prepare_items table items)

  abbrev pub failed_text : Option String → Assoc V → String
  failed_text none item = say ("\t" ∷ v.print item ∷ "\n" ∷ [])
  failed_text (some text) item = str_append text "\n"

  abbrev pub failed_texts : List (Assoc V) → List String
  failed_texts [] = []
  failed_texts (item ∷ items) = failed_text (v.json_indent item) item ∷ failed_texts items

  abbrev pub failed_list : List (Assoc V) → List String
  failed_list [] = []
  failed_list (item ∷ items) =
      "\nFailed to process the following items:\n" ∷ failed_texts (item ∷ items)

  abbrev pub put_warning : String → ℕ → List String
  put_warning table zero = []
  put_warning table (suc n) =
      "\nWarning: "
      ∷ v.number (pos (suc n))
      ∷ " items were not processed due to provisioned throughput exceeded when batch putting items to table "
      ∷ table
      ∷ "."
      ∷ []

  -- The text of the result: how many items were put, how many were left, and which failed.
  abbrev pub batch_put_message : String → ℤ → ℕ → List (Assoc V) → String
  batch_put_message table count n failed_items = say (
      "Successfully put "
      ∷ v.number count
      ∷ " items into table "
      ∷ table
      ∷ say (put_warning table n)
      ∷ say (failed_list failed_items)
      ∷ [])

  unfoldable pub batch_put_given : String → List (Assoc V) → M CallToolResult
  unfolding prepare_items send_all success_result error_result
  batch_put_given table [] =
      fail_audited (batch_subject "batch_put_items" table)
        (str_append "No items to put into table " table)
  batch_put_given table (item ∷ items) = do
    let (requests, failed_items) = prepare_items table (item ∷ items)
    n ← send_all db (batch_subject "batch_put_items" table) "putting items to table " requests
    pure (
        success_result (
          batch_put_message table
            (pos (length (item ∷ items)) -ℤ pos n -ℤ pos (length failed_items)) n failed_items))

  unfoldable pub batch_put_items : String → List (Assoc V) → M CallToolResult
  unfolding batch_put_given
  batch_put_items table items =
      guarded db g (batch_subject "batch_put_items" table) (validation_error "") (λ e. e)
        (validation_error "; table items cannot be put") (pure tt) (batch_put_given table items)

  abbrev pub delete_request : String → Assoc V → Marshalled → M WriteRequest
  delete_request table key (marshalled av) = pure (delete av)
  delete_request table key (not_marshalled e) =
      fail_audited (batch_subject "batch_delete_items" table)
        (say ("error when marshaling key " ∷ v.print key ∷ " from table " ∷ table ∷ ": " ∷ e ∷ []))

  -- The loop over the keys, which returns at the first that cannot be marshalled.
  unfoldable pub delete_requests : String → List (Assoc V) → M (List WriteRequest)
  unfolding error_result
  delete_requests table [] = pure []
  delete_requests table (key ∷ keys) = do
    r ← delete_request table key (v.marshal key)
    rs ← delete_requests table keys
    pure (r ∷ rs)

  abbrev pub delete_warning : String → ℕ → List String
  delete_warning table zero = []
  delete_warning table (suc n) =
      "\nWarning: "
      ∷ v.number (pos (suc n))
      ∷ " items were not deleted due to provisioned throughput constraints from table "
      ∷ table
      ∷ "."
      ∷ []

  abbrev pub batch_delete_message : String → ℤ → ℕ → String
  batch_delete_message table count n = say (
      "Successfully deleted "
      ∷ v.number count
      ∷ " items from table "
      ∷ table
      ∷ say (delete_warning table n)
      ∷ [])

  unfoldable pub batch_delete_given : String → List (Assoc V) → M CallToolResult
  unfolding delete_requests send_all success_result error_result
  batch_delete_given table [] =
      fail_audited (batch_subject "batch_delete_items" table)
        (str_append "no keys provided to delete from table " table)
  batch_delete_given table (key ∷ keys) = do
    rs ← delete_requests table (key ∷ keys)
    n ← send_all db (batch_subject "batch_delete_items" table) "deleting items from table " rs
    pure (success_result (batch_delete_message table (pos (length (key ∷ keys)) -ℤ pos n) n))

  unfoldable pub batch_delete_items : String → List (Assoc V) → M CallToolResult
  unfolding batch_delete_given
  batch_delete_items table keys =
      guarded db g (batch_subject "batch_delete_items" table) (validation_error "")
        (validation_error "") (validation_error "; table items cannot be deleted") (pure tt)
        (batch_delete_given table keys)
