-- ===== src/Risk/Writes/Batches.antt =====
-- getBatchFromDB and analyzeBatchDelete of internal/risk/analyzer.go on a batch of keys.
use mcp_server_dynamodb_sage.Prelude.{
  ℕ, zero, suc, ◌≤◌, ◌<◌, inl, String, ◌≡◌, refl, ap, ◌∙◌, false, Option, List, [], ◌∷◌, ◌++◌,
  Assoc, All, length, take, drop, length-take, length-drop, take-append-drop, str_eq, contains,
  arith,
}
use mcp_server_dynamodb_sage.Prelude.Int.{pos, ltb_ℤ}
use mcp_server_dynamodb_sage.Engine.Values.{Item}
use mcp_server_dynamodb_sage.Engine.Guardrail.{Guardrail}
use mcp_server_dynamodb_sage.Risk.Level.{
  medium, is_risk, assess, get_risk_level, escalated_risk_level, join_reasons,
  check_table_protection, check_risk, assessed, goes_on, decide,
}
use mcp_server_dynamodb_sage.Risk.Writes.{
  Marshalled, Printer, BatchGet, batches, check_delete_item_size, analyze_batch_delete,
}
use mcp_server_dynamodb_sage.Risk.Writes.Protected.{is_closed}

abbrev pub concat : List (List Item) → List Item
concat [] = []
concat (b ∷ bs) = b ++ concat bs

-- At least one key, and at most `count`.
abbrev pub IsBatch : ℕ → List Item → Type 0
IsBatch count b = (1 ≤ length b) × (length b ≤ count)

-- With batches of at least one key, one round more than there are keys is enough: every key is
-- asked for once, in order, and no batch is empty or larger than the configured size.
batches_cover :
    (count fuel : ℕ) (keys : List Item)
    → 1 ≤ count
    → length keys < fuel
    → (concat (batches fuel count keys) ≡ keys) × All (IsBatch count) (batches fuel count keys)
unfolding batches
batches_cover count zero keys h enough = absurd (omega (arith, enough))
batches_cover count (suc fuel) [] h enough = (refl, tt)
batches_cover count (suc fuel) (k ∷ keys) h enough =
    let (whole, sized) =
      batches_cover count fuel (drop count (k ∷ keys)) h
        (omega (arith, length-drop count (k ∷ keys), enough, h)) in
    (
      ap (λ r. take count (k ∷ keys) ++ r) whole ∙ take-append-drop count (k ∷ keys),
      (
        (
          omega (arith, length-take count (k ∷ keys), h),
          omega (arith, length-take count (k ∷ keys)),
        ),
        sized,
      ),
    )

no_warning :
    (table : String)
    → decide false (assessed (record { table_name = table; level = medium; reason = "" })) ≡ goes_on
unfolding decide check_risk is_risk str_eq
no_warning table = refl

empty_reason :
    (table : String)
    → assess table ("" ∷ []) ≡ record { table_name = table; level = medium; reason = "" }
unfolding escalated_risk_level get_risk_level join_reasons contains
empty_reason table = refl

spare_reason :
    {F V : Type 0} (print : Printer) (marshal : Assoc V → Marshalled) (g : Guardrail F)
    (table : String) (db : Option BatchGet) (keys : List (Assoc V))
    → is_closed g table ≡ false
    → ltb_ℤ g.config.risk_thresholds.batch_delete_count (pos (length keys)) ≡ false
    → check_delete_item_size print marshal g db keys ≡ inl ""
    → analyze_batch_delete print marshal g db table keys
      ≡ assessed (record { table_name = table; level = medium; reason = "" })
unfolding analyze_batch_delete check_table_protection
spare_reason print marshal g table db keys opened few small =
    ground (arith, opened, few, small, empty_reason table)

-- A batch of deletes with nothing against it, on an open table, with no more keys than the threshold
-- and items of an acceptable size, is given a medium risk with an empty reason, for which nobody is
-- warned.
harmless_batch_is_medium :
    {F V : Type 0} (print : Printer) (marshal : Assoc V → Marshalled) (g : Guardrail F)
    (table : String) (db : Option BatchGet) (keys : List (Assoc V))
    → is_closed g table ≡ false
    → ltb_ℤ g.config.risk_thresholds.batch_delete_count (pos (length keys)) ≡ false
    → check_delete_item_size print marshal g db keys ≡ inl ""
    → (analyze_batch_delete print marshal g db table keys
        ≡ assessed (record { table_name = table; level = medium; reason = "" }))
      × (decide false (analyze_batch_delete print marshal g db table keys) ≡ goes_on)
harmless_batch_is_medium print marshal g table db keys opened few small =
    let e = spare_reason print marshal g table db keys opened few small in
    (e, rw e (no_warning table))
