-- ===== src/Handlers/Batch/Reported.antt =====
-- What it is for a batch handler (server/handlers.go) to report what DynamoDB accepted, and that the
-- checks with which it begins do not stand in the way.
use mcp_server_dynamodb_sage.Prelude.{
  ℕ, ◌+◌, ◌-◌, String, ◌≡◌, refl, true, false, Option, none, some, arith, if◌then◌else◌,
}
use mcp_server_dynamodb_sage.Prelude.Int.{ℤ, pos, ◌-ℤ◌}
use mcp_server_dynamodb_sage.Engine.Guardrail.{
  Guardrail, validate_protected_table, validate_read_only_table,
}
use mcp_server_dynamodb_sage.Server.Jobs.Execute.{CallToolResult}
use mcp_server_dynamodb_sage.Handlers.Effects.{
  Trace, Dynamo, M, Step, returned, goes, ◌>>◌, resume, Subject, error_result, success_result,
  fail_audited, pure, guarded, check_protected, check_read_only, check_tags, tags_checked,
  validate_protected_tag, protected_error, read_only_error,
}
use mcp_server_dynamodb_sage.Handlers.Batch.Counts.{accepted, IsDone, IsQuiet}

-- An early return is an error. Otherwise the result says how many requests DynamoDB accepted in this
-- call, and with those that are left unprocessed they make `size`.
abbrev pub IsReported : ℕ → (ℤ → ℕ → String) → Trace → Trace × Step CallToolResult → Type 0
IsReported size message w (w', returned r) = r.is_error ≡ true
IsReported size message w (w', goes r) =
    (k : ℕ) × (n : ℕ) × (r ≡ success_result (message (pos k) n))
    × (accepted w' ≡ accepted w + k)
    × (k + n ≡ size)

pub since-IsReported :
    (size : ℕ) (message : ℤ → ℕ → String) (w w' : Trace) (p : Trace × Step CallToolResult)
    → accepted w' ≡ accepted w
    → IsReported size message w' p
    → IsReported size message w p
since-IsReported size message w w' (v, returned r) same h = h
since-IsReported size message w w' (v, goes r) same (count, n, e, h, whole) =
    (count, n, e, omega (arith, h, same), whole)

quiet-IsReported :
    {A : Type 0} (size : ℕ) (message : ℤ → ℕ → String) (w : Trace) (k : A → M CallToolResult)
    (p : Trace × Step A)
    → IsQuiet w p
    → ((a : A) (v : Trace) → IsReported size message v (k a v))
    → IsReported size message w (resume k p)
quiet-IsReported size message w k (w', returned r) is_error next = is_error
quiet-IsReported size message w k (w', goes a) same next =
    since-IsReported size message w w' (k a w') same (next a w')

pub done-IsReported :
    (size : ℕ) (message : ℤ → ℕ → String) (w : Trace) (report : ℕ → CallToolResult)
    (p : Trace × Step ℕ)
    → IsDone (accepted w) (accepted w + size) p
    → ((k n : ℕ) → k + n ≡ size → report n ≡ success_result (message (pos k) n))
    → IsReported size message w (resume (λ n. pure (report n)) p)
done-IsReported size message w report (v, returned r) is_error says = is_error
done-IsReported size message w report (v, goes n) (more, whole) says =
    let k = accepted v - accepted w in
    let sum : k + n ≡ size = omega (arith, more, whole) in
    (k, n, says k n sum, omega (arith, more), sum)

tags_checked-IsQuiet :
    {F : Type 0} (db : Dynamo) (g : Guardrail F) (s : Subject) (message : String → String)
    (w : Trace) (p : Trace × Option String)
    → accepted p.0 ≡ accepted w
    → IsQuiet w (tags_checked db g s message p)
unfolding error_result
tags_checked-IsQuiet db g s message w (v, none) same = same
tags_checked-IsQuiet db g s message w (v, some e) same = refl

-- pos (k + n + f) less n and f
pub subtract_lem : (k n f : ℕ) → pos (k + n + f) -ℤ pos n -ℤ pos f ≡ pos k
subtract_lem k n f = ground arith

pub subtract_one_lem : (k n : ℕ) → pos (k + n) -ℤ pos n ≡ pos k
subtract_one_lem k n = ground arith

module _ {F : Type 0} (db : Dynamo) (g : Guardrail F) where
  check_protected-IsQuiet :
      (s : Subject) (message : String → String) (w : Trace)
      → IsQuiet w (check_protected db g s message w)
  unfolding check_protected error_result
  check_protected-IsQuiet s message w =
      elim (validate_protected_table g s.table)
        as (λ b.
          IsQuiet {A = Unit {0}} w (
            if b
            then fail_audited s (message (protected_error db g s.table)) w
            else (w, goes tt))) [ true ↦ refl | false ↦ refl ]

  check_read_only-IsQuiet :
      (s : Subject) (message : String → String) (w : Trace)
      → IsQuiet w (check_read_only db g s message w)
  unfolding check_read_only error_result
  check_read_only-IsQuiet s message w =
      elim (validate_read_only_table g s.table)
        as (λ b.
          IsQuiet {A = Unit {0}} w (
            if b
            then fail_audited s (message (read_only_error db g s.table)) w
            else (w, goes tt))) [ true ↦ refl | false ↦ refl ]

  validate_protected_tag-accepted :
      (table : String) (w : Trace) → accepted (validate_protected_tag db g table w).0 ≡ accepted w
  unfolding validate_protected_tag
  validate_protected_tag-accepted table w = ground arith

  pub guarded-IsReported :
      (s : Subject) (m1 m2 m3 : String → String) (k : M CallToolResult) (size : ℕ)
      (message : ℤ → ℕ → String)
      → ((v : Trace) → IsReported size message v (k v))
      → (w : Trace) → IsReported size message w (guarded db g s m1 m2 m3 (pure tt) k w)
  unfolding guarded check_tags
  guarded-IsReported s m1 m2 m3 k size message next w =
      quiet-IsReported size message w
        (λ _. check_read_only db g s m2 >> (pure tt >> (check_tags db g s m3 >> k)))
        (check_protected db g s m1 w) (check_protected-IsQuiet s m1 w)
        (λ _ v.
          quiet-IsReported size message v (λ _. pure tt >> (check_tags db g s m3 >> k))
            (check_read_only db g s m2 v) (check_read_only-IsQuiet s m2 v)
            (λ _ u.
              quiet-IsReported size message u (λ _. k) (check_tags db g s m3 u)
                (tags_checked-IsQuiet db g s m3 u (validate_protected_tag db g s.table u)
                  (validate_protected_tag-accepted s.table u))
                (λ _ t. next t)))
