-- ===== src/Handlers/Batch/Reports.antt =====
-- What batchPutItems and batchDeleteItems (server/handlers.go) report, against what DynamoDB accepted.
use mathlib.Core.Path.{subst}
use mcp_server_dynamodb_sage.Prelude.{
  ℕ, suc, ◌+◌, ◌≤◌, String, ◌≡◌, refl, ap, ◌∙◌, ◌⊎◌, inl, inr, true, List, [], ◌∷◌, Assoc, arith,
  length,
}
use mcp_server_dynamodb_sage.Prelude.Int.{ℤ, pos, ◌-ℤ◌}
use mcp_server_dynamodb_sage.Engine.Guardrail.{Guardrail, WriteRequest, delete}
use mcp_server_dynamodb_sage.Risk.Writes.{Marshalled, marshalled, not_marshalled}
use mcp_server_dynamodb_sage.Server.Jobs.Execute.{CallToolResult}
use mcp_server_dynamodb_sage.Handlers.Effects.{
  reply, Requests, Trace, Dynamo, M, Step, returned, goes, ◌>>=◌, resume, error_result,
  success_result, pure,
}
use mcp_server_dynamodb_sage.Handlers.Passwords.{Values, hash_password_in_item}
use mcp_server_dynamodb_sage.Handlers.Batch.{
  total, send_all, prepare_items, add_request, request_hashed, batch_subject, batch_put_message,
  batch_put_given, batch_put_items, delete_request, delete_requests, batch_delete_message,
  batch_delete_given, batch_delete_items,
}
use mcp_server_dynamodb_sage.Handlers.Batch.Counts.{accepted, send_all-IsDone}
use mcp_server_dynamodb_sage.Handlers.Batch.Reported.{
  IsReported, since-IsReported, done-IsReported, subtract_lem, subtract_one_lem, guarded-IsReported,
}

-- Requests for all of the keys, with nothing accepted on the way, or an error.
abbrev IsMade : ℕ → Trace → Trace × Step (List WriteRequest) → Type 0
IsMade size w (v, goes rs) = (accepted v ≡ accepted w) × (length rs ≡ size)
IsMade size w (v, returned r) = r.is_error ≡ true

IsMade-cons :
    (size : ℕ) (w : Trace) (r : WriteRequest) (p : Trace × Step (List WriteRequest))
    → IsMade size w p
    → IsMade (suc size) w (resume (λ rs. pure (r ∷ rs)) p)
IsMade-cons size w r (v, goes rs) h = (h.0, omega (arith, h.1))
IsMade-cons size w r (v, returned e) h = h

made-IsReported :
    (size : ℕ) (message : ℤ → ℕ → String) (w : Trace) (k : List WriteRequest → M CallToolResult)
    (p : Trace × Step (List WriteRequest))
    → IsMade size w p
    → ((rs : List WriteRequest) (v : Trace) → length rs ≡ size → IsReported size message v (k rs v))
    → IsReported size message w (resume k p)
made-IsReported size message w k (v, goes rs) h next =
    since-IsReported size message w v (k rs v) h.0 (next rs v h.1)
made-IsReported size message w k (v, returned e) h next = h

module _ {F V : Type 0} (v : Values V) (db : Dynamo) (g : Guardrail F)
    (bounded : (w : Trace) (r left : Requests)
      → db.batch_write w r ≡ reply left
      → total left ≤ total r) where
  add_request_lem :
      (x : WriteRequest ⊎ Assoc V) (p : List WriteRequest × List (Assoc V))
      → length (add_request v db g x p).0 + length (add_request v db g x p).1
        ≡ suc (length p.0 + length p.1)
  add_request_lem (inl r) p = omega arith
  add_request_lem (inr item) p = omega arith

  prepare_items_lem :
      (table : String) (items : List (Assoc V))
      → length (prepare_items v db g table items).0 + length (prepare_items v db g table items).1
        ≡ length items
  unfolding prepare_items
  prepare_items_lem table [] = refl
  prepare_items_lem table (item ∷ items) = omega (
    arith,
    prepare_items_lem table items,
    add_request_lem (request_hashed v db g table item (hash_password_in_item v g item))
        (prepare_items v db g table items),
  )

  batch_put_given-IsReported :
      (table : String) (items : List (Assoc V)) (w : Trace)
      → IsReported
          (length (prepare_items v db g table items).0)
          (λ count n. batch_put_message v db g table count n (prepare_items v db g table items).1)
          w
          (batch_put_given v db g table items w)
  unfolding batch_put_given error_result
  batch_put_given-IsReported table [] w = refl
  batch_put_given-IsReported table (item ∷ items) w =
      done-IsReported (length (prepare_items v db g table (item ∷ items)).0)
        (λ count n.
          batch_put_message v db g table count n (prepare_items v db g table (item ∷ items)).1)
        w
        (λ n. success_result (
          batch_put_message v db g table
            (pos (length (item ∷ items))
              -ℤ pos n
              -ℤ pos (length (prepare_items v db g table (item ∷ items)).1))
            n (prepare_items v db g table (item ∷ items)).1))
        (send_all db (batch_subject v db g "batch_put_items" table) "putting items to table "
          (prepare_items v db g table (item ∷ items)).0 w)
        (send_all-IsDone db bounded (batch_subject v db g "batch_put_items" table)
          "putting items to table " (prepare_items v db g table (item ∷ items)).0 w)
        (λ k n sum.
          ap
            (λ count. success_result (
              batch_put_message v db g table count n (prepare_items v db g table (item ∷ items)).1))
            (ap
                (λ size.
                  pos size -ℤ pos n -ℤ pos (length (prepare_items v db g table (item ∷ items)).1))
                (omega (arith, sum, prepare_items_lem table (item ∷ items)))
              ∙ subtract_lem k n (length (prepare_items v db g table (item ∷ items)).1)))

  -- Where an answer of BatchWriteItem leaves at most the requests it was asked for, batchPutItems
  -- gives an error, or it reports as put exactly as many items as DynamoDB accepted in this call; and
  -- these, those that it reports as not processed, and those that it lists as failed make all the
  -- items.
  pub batch_put_items-IsReported :
      (table : String) (items : List (Assoc V)) (w : Trace)
      → let (requests, failed_items) = prepare_items v db g table items in
        (length requests + length failed_items ≡ length items)
        × IsReported
            (length requests)
            (λ count n. batch_put_message v db g table count n failed_items)
            w
            (batch_put_items v db g table items w)
  unfolding batch_put_items
  batch_put_items-IsReported table items w = (
    prepare_items_lem table items,
    guarded-IsReported db g (batch_subject v db g "batch_put_items" table) _ _ _
        (batch_put_given v db g table items) (length (prepare_items v db g table items).0)
        (λ count n. batch_put_message v db g table count n (prepare_items v db g table items).1)
        (λ u. batch_put_given-IsReported table items u) w,
  )

  delete_request-IsMade :
      (table : String) (key : Assoc V) (x : Marshalled) (size : ℕ) (w : Trace)
      (rest : M (List WriteRequest))
      → ((u : Trace) → IsMade size u (rest u))
      → IsMade
          (suc size)
          w
          ((delete_request v db g table key x >>= λ r. rest >>= λ rs. pure (r ∷ rs)) w)
  unfolding error_result
  delete_request-IsMade table key (marshalled av) size w rest made =
      IsMade-cons size w (delete av) (rest w) (made w)
  delete_request-IsMade table key (not_marshalled e) size w rest made = refl

  delete_requests-IsMade :
      (table : String) (keys : List (Assoc V)) (w : Trace)
      → IsMade (length keys) w (delete_requests v db g table keys w)
  unfolding delete_requests
  delete_requests-IsMade table [] w = (refl, refl)
  delete_requests-IsMade table (key ∷ keys) w =
      delete_request-IsMade table key (v.marshal key) (length keys) w
        (delete_requests v db g table keys) (delete_requests-IsMade table keys)

  batch_delete_given-IsReported :
      (table : String) (keys : List (Assoc V)) (w : Trace)
      → IsReported
          (length keys)
          (batch_delete_message v db g table)
          w
          (batch_delete_given v db g table keys w)
  unfolding batch_delete_given error_result
  batch_delete_given-IsReported table [] w = refl
  batch_delete_given-IsReported table (key ∷ keys) w =
      made-IsReported (length (key ∷ keys)) (batch_delete_message v db g table) w
        (λ rs.
          send_all db (batch_subject v db g "batch_delete_items" table) "deleting items from table "
            rs
          >>= λ n. pure (
              success_result
                (batch_delete_message v db g table (pos (length (key ∷ keys)) -ℤ pos n) n)))
        (delete_requests v db g table (key ∷ keys) w) (delete_requests-IsMade table (key ∷ keys) w)
        (λ rs u made.
          subst
            (λ size. IsReported size (batch_delete_message v db g table) u (
              (send_all db (batch_subject v db g "batch_delete_items" table)
                    "deleting items from table " rs
                  >>= λ n. pure (
                      success_result
                        (batch_delete_message v db g table (pos (length (key ∷ keys)) -ℤ pos n) n)))
                u))
            made
            (done-IsReported (length rs) (batch_delete_message v db g table) u
              (λ n.
                success_result
                  (batch_delete_message v db g table (pos (length (key ∷ keys)) -ℤ pos n) n))
              (send_all db (batch_subject v db g "batch_delete_items" table)
                "deleting items from table " rs u)
              (send_all-IsDone db bounded (batch_subject v db g "batch_delete_items" table)
                "deleting items from table " rs u)
              (λ k n sum.
                ap (λ count. success_result (batch_delete_message v db g table count n))
                  (ap (λ size. pos size -ℤ pos n) (omega (arith, sum, made))
                    ∙ subtract_one_lem k n))))

  -- Where an answer of BatchWriteItem leaves at most the requests it was asked for, batchDeleteItems
  -- gives an error, or it reports as deleted exactly as many keys as DynamoDB accepted in this call,
  -- and these and those that it reports as not deleted make all the keys.
  batch_delete_items-IsReported :
      (table : String) (keys : List (Assoc V)) (w : Trace)
      → IsReported
          (length keys)
          (batch_delete_message v db g table)
          w
          (batch_delete_items v db g table keys w)
  unfolding batch_delete_items
  batch_delete_items-IsReported table keys w =
      guarded-IsReported db g (batch_subject v db g "batch_delete_items" table) _ _ _
        (batch_delete_given v db g table keys) (length keys) (batch_delete_message v db g table)
        (λ u. batch_delete_given-IsReported table keys u) w
