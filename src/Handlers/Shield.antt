-- ===== src/Handlers/Shield.antt =====
-- The handlers that write (server/handlers.go) against a table that the guardrail shields: the three
-- checks with which each of them begins.
use mathlib.Core.Path.{subst}
use mcp_server_dynamodb_sage.Prelude.{
  String, ◌≡◌, refl, sym, ap, Bool, true, false, ◌||◌, ◌⊎◌, Option, none, some, List, [], ◌∷◌,
  Assoc, arith, Bool-cases, Option-cases, inl, inr, if◌then◌else◌,
}
use mcp_server_dynamodb_sage.Engine.Guardrail.{
  Guardrail, validate_protected_table, validate_read_only_table,
}
use mcp_server_dynamodb_sage.Server.Jobs.Execute.{CallToolResult}
use mcp_server_dynamodb_sage.Handlers.Effects.{
  is_write, Trace, Dynamo, M, Step, returned, goes, pure, ◌>>◌, resume, result_of, error_result,
  Subject, fail_audited, validate_protected_tag, check_protected, check_read_only, check_tags,
  guarded, guarded, protected_error, read_only_error, tags_checked,
}
use mcp_server_dynamodb_sage.Handlers.Passwords.{Values}
use mcp_server_dynamodb_sage.Handlers.Items.{put_item, key_given, delete_item}
use mcp_server_dynamodb_sage.Handlers.Update.{UpdateItemArgs, update_item}
use mcp_server_dynamodb_sage.Handlers.Batch.{batch_put_items, batch_delete_items}
use mcp_server_dynamodb_sage.Handlers.Tables.{
  UpdateTableArgs, delete_table, update_table, update_table_ttl,
}

-- The calls of a trace that change a table.
abbrev pub writes : Trace → Trace
writes [] = []
writes (e ∷ w) = let rest = writes w in if is_write e then e ∷ rest else rest

-- Nothing is written, and the result is an error.
pub record IsRefused (w : Trace) (out : Trace × Step CallToolResult) : Type 0 where
  pub nothing_written : writes out.0 ≡ writes w
  pub is_error : (result_of out.1).is_error ≡ true

abbrev pub is_tagged : Option String → Bool
is_tagged none = false
is_tagged (some _) = true

-- The arguments of the handlers that write.
pub data WriteCall (V : Type 0) : Type 0 where
  puts : String → Assoc V → WriteCall V
  deletes : String → Assoc V → WriteCall V
  updates : UpdateItemArgs V → WriteCall V
  puts_batch : String → List (Assoc V) → WriteCall V
  deletes_batch : String → List (Assoc V) → WriteCall V
  deletes_table : String → WriteCall V
  updates_table : UpdateTableArgs → WriteCall V
  updates_ttl : (table attribute : String) → Bool → WriteCall V

abbrev pub table_of : {V : Type 0} → WriteCall V → String
table_of (puts table _) = table
table_of (deletes table _) = table
table_of (updates args) = args.table_name
table_of (puts_batch table _) = table
table_of (deletes_batch table _) = table
table_of (deletes_table table) = table
table_of (updates_table args) = args.table_name
table_of (updates_ttl table _ _) = table

-- A check that ends the handler with an audited error, and one that lets it go on.
IsRefused-at :
    {w w' : Trace} {s : Subject} (text : String) (m : M (Unit {0})) (k : M CallToolResult)
    → m w ≡ fail_audited s text w'
    → writes w' ≡ writes w
    → IsRefused w ((m >> k) w)
unfolding error_result
IsRefused-at {w} {w'} {s} text m k e same =
    subst (λ p. IsRefused w (resume (λ _. k) p)) (sym e)
      (record { nothing_written = same; is_error = refl })

IsRefused-after :
    {w w' v : Trace} (m : M (Unit {0})) (k : M CallToolResult)
    → m w ≡ (w', goes tt)
    → IsRefused v (k w')
    → IsRefused v ((m >> k) w)
IsRefused-after {v} m k e rest = subst (λ p. IsRefused v (resume (λ _. k) p)) (sym e) rest

-- A test that leaves the trace alone, and that returns an error if it does not pass.
abbrev IsTest : M (Unit {0}) → Trace → Type 0
IsTest test w =
    (test w ≡ (w, goes tt)) ⊎ ((text : String) × (test w ≡ (w, returned (error_result text))))

test-IsRefused :
    {w v : Trace} (test : M (Unit {0})) (k : M CallToolResult)
    → IsTest test w
    → writes w ≡ writes v
    → IsRefused v (k w)
    → IsRefused v ((test >> k) w)
unfolding error_result
test-IsRefused test k (inl e) same rest = IsRefused-after test k e rest
test-IsRefused {v} test k (inr (text, e)) same rest =
    subst (λ p. IsRefused v (resume (λ _. k) p)) (sym e)
      (record { nothing_written = same; is_error = refl })

module _ {F : Type 0} (db : Dynamo) (g : Guardrail F) where
  -- The table is protected or read-only, or it has a protected tag, or its tags cannot be read.
  unfoldable pub is_shielded : String → Trace → Bool
  is_shielded table w =
      validate_protected_table g table
      || validate_read_only_table g table
      || is_tagged (validate_protected_tag db g table w).1

  validate_protected_tag-writes :
      (table : String) (w : Trace) → writes (validate_protected_tag db g table w).0 ≡ writes w
  unfolding validate_protected_tag
  validate_protected_tag-writes table w = ground arith

  check_protected-fail_audited :
      (s : Subject) (message : String → String) (w : Trace)
      → validate_protected_table g s.table ≡ true
      → check_protected db g s message w ≡ fail_audited s (message (protected_error db g s.table)) w
  unfolding check_protected error_result
  check_protected-fail_audited s message w h = rw h refl

  check_protected-goes :
      (s : Subject) (message : String → String) (w : Trace)
      → validate_protected_table g s.table ≡ false
      → check_protected db g s message w ≡ (w, goes tt)
  unfolding check_protected
  check_protected-goes s message w h = rw h refl

  check_read_only-fail_audited :
      (s : Subject) (message : String → String) (w : Trace)
      → validate_read_only_table g s.table ≡ true
      → check_read_only db g s message w ≡ fail_audited s (message (read_only_error db g s.table)) w
  unfolding check_read_only error_result
  check_read_only-fail_audited s message w h = rw h refl

  check_read_only-goes :
      (s : Subject) (message : String → String) (w : Trace)
      → validate_read_only_table g s.table ≡ false
      → check_read_only db g s message w ≡ (w, goes tt)
  unfolding check_read_only
  check_read_only-goes s message w h = rw h refl

  check_tags-fail_audited :
      (s : Subject) (message : String → String) (w : Trace) (e : String)
      → (validate_protected_tag db g s.table w).1 ≡ some e
      → check_tags db g s message w
        ≡ fail_audited s (message e) (validate_protected_tag db g s.table w).0
  unfolding check_tags error_result
  check_tags-fail_audited s message w e h =
      ap (λ o. tags_checked db g s message ((validate_protected_tag db g s.table w).0, o)) h

  check_tags-IsRefused :
      (s : Subject) (message : String → String) (k : M CallToolResult) (w : Trace)
      → is_tagged (validate_protected_tag db g s.table w).1 ≡ true
      → IsRefused w ((check_tags db g s message >> k) w)
  check_tags-IsRefused s message k w h =
      elim (Option-cases (validate_protected_tag db g s.table w).1) [
        | inl no_tag ↦ absurd (ground arith)
        | inr (e, found) ↦
            IsRefused-at _ (check_tags db g s message) k
              (check_tags-fail_audited s message w e found)
              (validate_protected_tag-writes s.table w)
      ]

  -- The three checks in a row, with a test before the third, whatever follows them.
  guarded-IsRefused :
      (s : Subject) (m1 m2 m3 : String → String) (test : M (Unit {0})) (k : M CallToolResult)
      (w : Trace)
      → IsTest test w
      → is_shielded s.table w ≡ true
      → IsRefused w (guarded db g s m1 m2 m3 test k w)
  unfolding is_shielded guarded error_result
  guarded-IsRefused s m1 m2 m3 test k w tests h =
      elim (Bool-cases (validate_protected_table g s.table)) [
        | inl protects ↦
            IsRefused-at _ (check_protected db g s m1)
              (check_read_only db g s m2 >> (test >> (check_tags db g s m3 >> k)))
              (check_protected-fail_audited s m1 w protects) refl
        | inr admits ↦
            IsRefused-after (check_protected db g s m1)
              (check_read_only db g s m2 >> (test >> (check_tags db g s m3 >> k)))
              (check_protected-goes s m1 w admits)
              (elim (Bool-cases (validate_read_only_table g s.table)) [
                | inl locks ↦
                    IsRefused-at _ (check_read_only db g s m2) (test >> (check_tags db g s m3 >> k))
                      (check_read_only-fail_audited s m2 w locks) refl
                | inr free ↦
                    IsRefused-after (check_read_only db g s m2)
                      (test >> (check_tags db g s m3 >> k)) (check_read_only-goes s m2 w free)
                      (test-IsRefused test (check_tags db g s m3 >> k) tests refl
                        (check_tags-IsRefused s m3 k w (ground arith)))
              ])
      ]

module _ {F V : Type 0} (v : Values V) (db : Dynamo) (g : Guardrail F) where
  abbrev pub handle : WriteCall V → M CallToolResult
  handle (puts table item) = put_item v db g table item
  handle (deletes table key) = delete_item v db g table key
  handle (updates args) = update_item v db g args
  handle (puts_batch table items) = batch_put_items v db g table items
  handle (deletes_batch table keys) = batch_delete_items v db g table keys
  handle (deletes_table table) = delete_table db g table
  handle (updates_table args) = update_table db g args
  handle (updates_ttl table attribute enabled) = update_table_ttl db g table attribute enabled

  key_given-IsTest :
      (table : String) (key : Assoc V) (w : Trace) → IsTest (key_given v db g table key) w
  unfolding key_given
  key_given-IsTest table [] w = inr (_, refl)
  key_given-IsTest table (f ∷ key) w = inl refl

  -- On a table that is protected or read-only, or that has a protected tag or tags that cannot be
  -- read, none of the eight handlers that put, delete or update items or that change or delete a table
  -- makes a call that changes anything, and the result of each is an error.
  pub handle-IsRefused :
      (c : WriteCall V) (w : Trace)
      → is_shielded db g (table_of c) w ≡ true
      → IsRefused w (handle c w)
  unfolding put_item delete_item update_item batch_put_items batch_delete_items delete_table
      update_table update_table_ttl
  handle-IsRefused (puts table item) w h = guarded-IsRefused db g _ _ _ _ (pure tt) _ w (inl refl) h
  handle-IsRefused (deletes table key) w h =
      guarded-IsRefused db g _ _ _ _ (key_given v db g table key) _ w (key_given-IsTest table key w)
        h
  handle-IsRefused (updates args) w h = guarded-IsRefused db g _ _ _ _ (pure tt) _ w (inl refl) h
  handle-IsRefused (puts_batch table items) w h =
      guarded-IsRefused db g _ _ _ _ (pure tt) _ w (inl refl) h
  handle-IsRefused (deletes_batch table keys) w h =
      guarded-IsRefused db g _ _ _ _ (pure tt) _ w (inl refl) h
  handle-IsRefused (deletes_table table) w h =
      guarded-IsRefused db g _ _ _ _ (pure tt) _ w (inl refl) h
  handle-IsRefused (updates_table args) w h =
      guarded-IsRefused db g _ _ _ _ (pure tt) _ w (inl refl) h
  handle-IsRefused (updates_ttl table attribute enabled) w h =
      guarded-IsRefused db g _ _ _ _ (pure tt) _ w (inl refl) h
