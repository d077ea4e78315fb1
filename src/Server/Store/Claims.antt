-- ===== src/Server/Store/Claims.antt =====
-- How many rows of processed_ops_by_job (server/store.go) satisfy a test, after each statement.
use mcp_server_dynamodb_sage.Prelude.{
  ℕ, ◌+◌, ◌≤◌, ◌<◌, String, ◌≡◌, refl, Bool, true, false, not, ◌&&◌, [], ◌∷◌, any, arith, str_eq,
  str_eq_iff, if◌then◌else◌,
}
use mcp_server_dynamodb_sage.Server.Store.{
  Claim, Claims, is_job, is_open, is_stale, update_result, delete_where,
}

-- The rows that satisfy `p`.
abbrev pub count : (Claim → Bool) → Claims → ℕ
count p [] = 0
count p (c ∷ rows) = (if p c then 1 else 0) + count p rows

abbrev pub rows_of : String → Claims → ℕ
rows_of id = count (is_job id)

-- The rows of a job that has a result.
abbrev pub done_of : String → Claims → ℕ
done_of id = count (λ c. is_job id c && not (is_open c))

pub done_of-le : (id : String) (rows : Claims) → done_of id rows ≤ rows_of id rows
done_of-le id [] = omega arith
done_of-le id (c ∷ rows) = ground (arith, done_of-le id rows)

pub any-count : (p : Claim → Bool) (rows : Claims) → any p rows ≡ false → count p rows ≡ 0
any-count p [] h = refl
any-count p (c ∷ rows) h = ground (arith, any-count p rows)

pub any-pos : (p : Claim → Bool) (rows : Claims) → any p rows ≡ true → 0 < count p rows
any-pos p [] h = absurd (cc)
any-pos p (c ∷ rows) h = ground (arith, any-pos p rows)

-- A deletion removes the rows that it names, and leaves the count of every other kind of row.
pub count-delete_where :
    (p q : Claim → Bool) (rows : Claims)
    → count q (delete_where p rows).0 + count (λ c. p c && q c) rows ≡ count q rows
unfolding delete_where
count-delete_where p q [] = omega arith
count-delete_where p q (c ∷ rows) = ground (arith, count-delete_where p q rows)

pub rows_of-update_result :
    (id json j : String) (rows : Claims) → rows_of j (update_result id json rows).0 ≡ rows_of j rows
unfolding update_result
rows_of-update_result id json j [] = refl
rows_of-update_result id json j (c ∷ rows) = ground (arith, rows_of-update_result id json j rows)

-- With a result that is not empty, all rows of the job have a result; those of others are as before.
pub done_of-update_result :
    (id json j : String) (rows : Claims)
    → str_eq json "" ≡ false
    → done_of j (update_result id json rows).0
      ≡ (if str_eq id j then rows_of j rows else done_of j rows)
unfolding update_result
done_of-update_result id json j [] h = ground arith
done_of-update_result id json j (c ∷ rows) h = ground (
  arith,
  done_of-update_result id json j rows h,
  str_eq_iff id j,
  str_eq_iff c.job_id id,
  str_eq_iff c.job_id j,
)

-- The deletion of a failed job's open claim touches no other job's row, and no row with a result.
pub open-other :
    (id j : String) (rows : Claims)
    → str_eq id j ≡ false
    → count (λ c. (is_job id c && is_open c) && is_job j c) rows ≡ 0
open-other id j [] h = refl
open-other id j (c ∷ rows) h =
    ground (
      arith,
      open-other id j rows h,
      str_eq_iff c.job_id id,
      str_eq_iff c.job_id j,
      str_eq_iff id j,
    )

pub open-done :
    (p : Claim → Bool) (j : String) (rows : Claims)
    → count (λ c. (p c && is_open c) && (is_job j c && not (is_open c))) rows ≡ 0
open-done p j [] = refl
open-done p j (c ∷ rows) = ground (arith, open-done p j rows)

pub stale-done :
    (now timeout : ℕ) (j : String) (rows : Claims)
    → count (λ c. is_stale now timeout c && (is_job j c && not (is_open c))) rows ≡ 0
stale-done now timeout j [] = refl
stale-done now timeout j (c ∷ rows) = ground (arith, stale-done now timeout j rows)
