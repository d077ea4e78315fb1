-- ===== src/Risk/Writes/Protected.antt =====
-- What internal/risk/analyzer.go makes of a write to a table that is read-only or protected, and of a
-- batch of deletes.
use mcp_server_dynamodb_sage.Prelude.{
  ◌⊎◌, inl, inr, String, ◌≡◌, ◌≢◌, append_some, refl, Bool, true, false, ◌||◌, Option, List, [],
  ◌∷◌, ◌++◌, Assoc, any, length, str_eq, str_append, contains_prefix, has_prefix_append, arith,
  if◌then◌else◌,
}
use mcp_server_dynamodb_sage.Engine.Guardrail.{
  Guardrail, validate_read_only_table, validate_protected_table,
}
use mcp_server_dynamodb_sage.Risk.Level.{
  high, assess, blocks, escalated_risk_level, check_table_protection, check_risk, assessed,
  analysis_error, warned, goes_on, decide,
}
use mcp_server_dynamodb_sage.Risk.Level.Reasons.{IsText, decide_some}
use mcp_server_dynamodb_sage.Risk.Writes.Blocking.{put_goes_on_iff}
use mcp_server_dynamodb_sage.Risk.Writes.{
  Marshalled, Printer, BatchGet, analyze_put_item, analyze_delete, check_delete_item_size,
  batch_count_reasons, analyze_batch_delete,
}

abbrev pub is_closed : {F : Type 0} → Guardrail F → String → Bool
is_closed g table = validate_read_only_table g table || validate_protected_table g table

any_append_left :
    (p : String → Bool) (xs ys : List String) → any p xs ≡ true → any p (xs ++ ys) ≡ true
any_append_left p [] ys h = absurd cc
any_append_left p (x ∷ xs) ys h = ground (arith, any_append_left p xs ys)

literals : IsText "readonly" × IsText "protectedTable"
unfolding str_eq
literals = (refl, refl)

blocks_read_only : (r : String) → blocks (str_append "readonly" r) ≡ true
blocks_read_only r =
    ground
      (arith, contains_prefix (str_append "readonly" r) "readonly" (has_prefix_append "readonly" r))

blocks_protected : (r : String) → blocks (str_append "protectedTable" r) ≡ true
blocks_protected r = ground (
  arith,
  contains_prefix (str_append "protectedTable" r) "protectedTable"
      (has_prefix_append "protectedTable" r),
)

-- A reason that speaks of the protection of a table.
abbrev pub IsBlock : String → Type 0
IsBlock r = IsText r × (blocks r ≡ true)

first-IsBlock :
    (ro prot : Bool) (a b : String)
    → (ro || prot) ≡ true
    → IsBlock a
    → IsBlock b
    → (r : String) × (rs : List String) × ((if ro then a ∷ [] else [])
          ++ (if prot then b ∷ [] else [])
        ≡ r ∷ rs)
      × IsBlock r
first-IsBlock true true a b h ha hb = (a, b ∷ [], refl, ha)
first-IsBlock true false a b h ha hb = (a, [], refl, ha)
first-IsBlock false true a b h ha hb = (b, [], refl, hb)
first-IsBlock false false a b h ha hb = absurd cc

closed_reason :
    {F : Type 0} (g : Guardrail F) (table : String)
    → is_closed g table ≡ true
    → (r : String) × (rs : List String) × (check_table_protection g table ≡ r ∷ rs) × IsBlock r
unfolding check_table_protection
closed_reason g table h =
    first-IsBlock (validate_read_only_table g table) (validate_protected_table g table) _ _ h
      (append_some "readonly" _ literals.0, blocks_read_only _)
      (append_some "protectedTable" _ literals.1, blocks_protected _)

high_of_blocks :
    (r : String) (rs : List String) → blocks r ≡ true → escalated_risk_level (r ∷ rs) ≡ high
unfolding escalated_risk_level
high_of_blocks r rs h = ground arith

pub outcome : {A B : Type 0} (x : A ⊎ B) → ((a : A) × (x ≡ inl a)) ⊎ ((b : B) × (x ≡ inr b))
outcome (inl a) = inl (a, refl)
outcome (inr b) = inr (b, refl)

stopped :
    (table r : String) (rs : List String)
    → IsText r
    → decide false (assessed (assess table (r ∷ rs))) ≢ goes_on
stopped table r rs h p = cc (p, decide_some table r rs h)

closed_put :
    {F : Type 0} (g : Guardrail F) (table : String)
    → is_closed g table ≡ true
    → (validate_read_only_table g table ≡ false) × (validate_protected_table g table ≡ false)
    → ⊥
closed_put g table h w = ground (arith, h, w.0, w.1)

batch_cases :
    {F V : Type 0} (print : Printer) (marshal : Assoc V → Marshalled) (g : Guardrail F)
    (table : String) (db : Option BatchGet) (keys : List (Assoc V))
    → ((e : String) × (analyze_batch_delete print marshal g db table keys ≡ analysis_error e))
      ⊎ ((text : String) × (check_delete_item_size print marshal g db keys ≡ inl text)
          × (analyze_batch_delete print marshal g db table keys
              ≡ assessed (
                  assess table (
                    check_table_protection g table
                    ++ batch_count_reasons print marshal g (length keys)
                    ++ (text ∷ [])))))
unfolding analyze_batch_delete
batch_cases print marshal g table db keys =
    elim (outcome (check_delete_item_size print marshal g db keys)) [
      | inl (text, e) ↦ inr (text, e, ground (arith, e))
      | inr (err, e) ↦ inl (err, ground (arith, e))
    ]

pub failed_is_warned :
    (e : String) → decide false (analysis_error e) ≡ warned (str_append "risk analysis failed: " e)
unfolding decide check_risk
failed_is_warned e = refl

-- On a table that is read-only or protected, none of three kinds of write goes on without a
-- confirmation: the risk of a delete is high, and the caller is warned of a delete, of a put of any
-- item, and of a batch of deletes of any keys, whatever DynamoDB answers when it is asked for their
-- size.
pub closed_table_is_guarded :
    {F V : Type 0} (print : Printer) (marshal : Assoc V → Marshalled) (g : Guardrail F)
    (table : String) (item : Assoc V) (db : Option BatchGet) (keys : List (Assoc V))
    → is_closed g table ≡ true
    → ((analyze_delete g table).level ≡ high)
      × (decide false (assessed (analyze_delete g table)) ≢ goes_on)
      × (decide false (assessed (analyze_put_item print marshal g table item)) ≢ goes_on)
      × (decide false (analyze_batch_delete print marshal g db table keys) ≢ goes_on)
unfolding analyze_delete
closed_table_is_guarded print marshal g table item db keys h =
    let (r, rs, e, (text_r, speaks)) = closed_reason g table h in
    (
      rw e (high_of_blocks r rs speaks),
      rw e (stopped table r rs text_r),
      λ p.
          absurd
            (closed_put g table h ((put_goes_on_iff g table print marshal item).0 p).1.2.writable),
      λ p. elim (batch_cases print marshal g table db keys) [
        | inl (err, failed) ↦ absurd (cc (p, failed, failed_is_warned err))
        | inr (text, sized, found) ↦ absurd (
            stopped table r (rs ++ batch_count_reasons print marshal g (length keys) ++ (text ∷ []))
              text_r (rw (found, e) at p))
      ],
    )
