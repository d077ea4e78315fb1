-- ===== src/Server/Store.antt =====
-- The table processed_ops_by_job of server/store.go. A table is the list of its rows, and each
-- statement gives the new rows and the number of rows affected. syncWrite hands a statement to the
-- writer, or fails before anything is written.
pub mod Claims
pub mod Writer
use mcp_server_dynamodb_sage.Prelude.{
  ℕ, zero, ◌+◌, String, Bool, true, false, not, ◌&&◌, Option, none, some, List, [], ◌∷◌, ltb, leb,
  ◌==◌, str_eq, if◌then◌else◌, any,
}

-- A row of processed_ops_by_job, its key being `job_id`. Times are in seconds.
pub record Claim : Type 0 where
  pub job_id : String
  pub operation : String
  pub table_name : String
  pub result_json : String
  pub created_at : ℕ

abbrev pub Claims : Type 0
Claims = List Claim

abbrev pub is_job : String → Claim → Bool
is_job id c = str_eq c.job_id id

-- A claim whose job has no result yet.
abbrev pub is_open : Claim → Bool
is_open c = str_eq c.result_json ""

-- INSERT … ON CONFLICT(job_id) DO NOTHING
unfoldable pub insert_claim : Claim → Claims → Claims × ℕ
insert_claim c rows = if any (is_job c.job_id) rows then (rows, 0) else (c ∷ rows, 1)

-- UPDATE … SET result_json = ? WHERE job_id = ?
unfoldable pub update_result : String → String → Claims → Claims × ℕ
update_result id json [] = ([], 0)
update_result id json (c ∷ rows) =
    let (rows', n) = update_result id json rows in
    if is_job id c then (record c { result_json = json } ∷ rows', n + 1) else (c ∷ rows', n)

-- DELETE … WHERE …
unfoldable pub delete_where : (Claim → Bool) → Claims → Claims × ℕ
delete_where p [] = ([], 0)
delete_where p (c ∷ rows) =
    let (rows', n) = delete_where p rows in if p c then (rows', n + 1) else (c ∷ rows', n)

-- Whether the write channel and the database take a write.
pub data Write : Type 0 where
  written : Write
  channel_timeout : Write
  database_error : Write

-- syncWrite and RowsAffected: `none` is an error, and then the rows are as they were.
unfoldable pub sync_write : Write → (Claims → Claims × ℕ) → Claims → Claims × Option ℕ
sync_write written f rows = let (rows', n) = f rows in (rows', some n)
sync_write channel_timeout f rows = (rows, none)
sync_write database_error f rows = (rows, none)

-- What a caller sees of a write: an error, or whether the count passes the test.
abbrev pub affected : (ℕ → Bool) → Option ℕ → Option Bool
affected test none = none
affected test (some n) = some (test n)

unfoldable pub add_processed_op :
    Write → (id operation table_name json : String) → (now : ℕ) → Claims → Claims × Option Bool
unfolding sync_write insert_claim
add_processed_op w id operation table_name json now rows =
    let (rows', n) =
      sync_write w
        (insert_claim (record {
          job_id = id;
          operation = operation;
          table_name = table_name;
          result_json = json;
          created_at = now;
        }))
        rows in
    (rows', affected (λ k. k == 1) n)

unfoldable pub update_processed_op_result : Write → String → String → Claims → Claims × Option Bool
unfolding sync_write update_result
update_processed_op_result w id json rows =
    let (rows', n) = sync_write w (update_result id json) rows in (rows', affected (λ k. k == 1) n)

unfoldable pub delete_claimed_op : Write → String → Claims → Claims × Option Bool
unfolding sync_write delete_where
delete_claimed_op w id rows =
    let (rows', n) = sync_write w (delete_where (λ c. is_job id c && is_open c)) rows in
    (rows', affected (λ k. leb 1 k) n)

-- A claim that has been open for longer than `timeout` seconds.
abbrev pub is_stale : ℕ → ℕ → Claim → Bool
is_stale now timeout c = is_open c && ltb (c.created_at + timeout) now

unfoldable pub delete_stale_claimed_ops : Write → ℕ → ℕ → Claims → Claims × Option ℕ
unfolding sync_write delete_where
delete_stale_claimed_ops w now timeout rows =
    sync_write w (delete_where (is_stale now timeout)) rows

-- SELECT result_json … WHERE job_id = ?; the empty text when there is no row
unfoldable pub get_processed_op_result : String → Claims → String
get_processed_op_result id [] = ""
get_processed_op_result id (c ∷ rows) =
    if is_job id c then c.result_json else get_processed_op_result id rows
