-- ===== src/Risk/BatchPut/Harmless.antt =====
-- Which batches of puts internal/risk/analyzer.go lets through without a confirmation.
use mathlib.Core.Path.{subst}
use mcp_server_dynamodb_sage.Prelude.{
  ℕ, ◌≤◌, ◌⊎◌, inl, inr, String, ◌≡◌, ◌≢◌, ◌↔◌, refl, false, List, [], ◌∷◌, ◌++◌, Assoc, All,
  length, sum, map, str_eq, append_some, arith,
}
use mcp_server_dynamodb_sage.Prelude.Int.{pos, ltb_ℤ}
use mcp_server_dynamodb_sage.Engine.Values.{Item, estimated_size}
use mcp_server_dynamodb_sage.Engine.Guardrail.{
  Guardrail, max_individual_size, validate_read_only_table, validate_protected_table,
  validate_schema, get_sensitive_fields, check_table_pii_fields, validate_capacity_units,
  estimated_wcu,
}
use mcp_server_dynamodb_sage.Risk.Level.{assess, assessed, analysis_error, decide, goes_on}
use mcp_server_dynamodb_sage.Risk.Level.Reasons.{
  IsText, AreTexts, AreTexts-append, goes_on_iff_none, decide_medium, guarded-AreTexts,
  guarded_nothing, both_nothing,
}
use mcp_server_dynamodb_sage.Risk.Writes.{
  Marshalled, Printer, schema_reason, pii_reason, size_reasons, format_sensitive_fields,
}
use mcp_server_dynamodb_sage.Risk.Writes.Blocking.{
  if_any-AreTexts, if_any_nothing, size_nothing, protection-AreTexts, protection_nothing,
}
use mcp_server_dynamodb_sage.Risk.Writes.Protected.{outcome, failed_is_warned}
use mcp_server_dynamodb_sage.Risk.BatchPut.{
  marshal_items, collect, or_else, first_reason, schema_reasons, batch_put_reasons,
  analyze_batch_put,
}

nothing_appended : (xs ys : List String) → (xs ++ ys ≡ []) ↔ ((xs ≡ []) × (ys ≡ []))
nothing_appended xs ys = both_nothing xs ys (λ h. h, λ h. h) (λ h. h, λ h. h)

collect_nothing :
    {V : Type 0} (fields : Assoc V → List String) (items : List (Assoc V))
    → (collect fields items ≡ []) ↔ All (λ i. fields i ≡ []) items
unfolding collect
collect_nothing fields [] = (λ h. tt, λ h. refl)
collect_nothing fields (i ∷ items) =
    both_nothing (fields i) (collect fields items) (λ h. h, λ h. h) (collect_nothing fields items)

or_else_nothing : (xs ys : List String) → (or_else xs ys ≡ []) ↔ ((xs ≡ []) × (ys ≡ []))
or_else_nothing [] ys = (λ h. (refl, h), λ h. h.1)
or_else_nothing (x ∷ xs) ys = (λ h. absurd cc, λ h. absurd (cc (h.0)))

first_reason_nothing :
    {P : Item → Type 0} (reasons : Item → List String)
    → ((av : Item) → (reasons av ≡ []) ↔ P av)
    → (avs : List Item) → (first_reason reasons avs ≡ []) ↔ All P avs
unfolding first_reason
first_reason_nothing reasons one [] = (λ h. tt, λ h. refl)
first_reason_nothing reasons one (av ∷ avs) =
    let both = or_else_nothing (reasons av) (first_reason reasons avs) in
    let rest = first_reason_nothing reasons one avs in
    (λ h. ((one av).0 (both.0 h).0, rest.0 (both.0 h).1), λ h. both.1 ((one av).1 h.0, rest.1 h.1))

or_else-AreTexts : (xs ys : List String) → AreTexts xs → AreTexts ys → AreTexts (or_else xs ys)
or_else-AreTexts [] ys hx hy = hy
or_else-AreTexts (x ∷ xs) ys hx hy = hx

first_reason-AreTexts :
    (reasons : Item → List String)
    → ((av : Item) → AreTexts (reasons av))
    → (avs : List Item) → AreTexts (first_reason reasons avs)
unfolding first_reason
first_reason-AreTexts reasons one [] = record { each = tt }
first_reason-AreTexts reasons one (av ∷ avs) =
    or_else-AreTexts (reasons av) (first_reason reasons avs) (one av)
      (first_reason-AreTexts reasons one avs)

inl_same : (r : List Item ⊎ String) (x y : List Item) → r ≡ inl x → r ≡ inl y → x ≡ y
inl_same r x y p q = cc

literals :
    IsText "Schema validation failed: "
    × IsText "Item contains sensitive fields: "
    × IsText "Item contains table-specific PII fields: "
    × IsText "Item size ("
    × IsText "Total CapacityUnits "
    × IsText "Batch put of "
    × IsText "No items to put into table "
unfolding str_eq
literals = (refl, refl, refl, refl, refl, refl, refl)

module _ {F V : Type 0} (print : Printer) (units : ℕ → String) (g : Guardrail F)
    (table : String) where
  -- The conditions under which items may be put in one batch without a confirmation.
  pub record IsHarmlessBatch (items : List (Assoc V)) (avs : List Item) : Type 0 where
    pub writable :
        (validate_read_only_table g table ≡ false) × (validate_protected_table g table ≡ false)
    pub conform : All (λ av. validate_schema g table av ≡ []) avs
    pub nothing_sensitive : All (λ i. get_sensitive_fields g i ≡ []) items
    pub nothing_personal : All (λ i. check_table_pii_fields g table i ≡ []) items
    pub small : All (λ av. estimated_size av ≤ max_individual_size) avs
    pub affordable : validate_capacity_units g (pos (sum (map estimated_wcu avs))) ≡ false
    pub few : ltb_ℤ g.config.risk_thresholds.batch_put_count (pos (length items)) ≡ false

  reasons_nothing :
      (items : List (Assoc V)) (avs : List Item)
      → (batch_put_reasons print units g table items avs ≡ []) ↔ IsHarmlessBatch items avs
  unfolding batch_put_reasons
  reasons_nothing items avs =
      let sensitive =
        if_any_nothing (λ fs. format_sensitive_fields fs g.config.enforce_password_hashing)
          (collect (get_sensitive_fields g) items) in
      let personal = if_any_nothing pii_reason (collect (check_table_pii_fields g table) items) in
      let no_sensitive = collect_nothing (get_sensitive_fields g) items in
      let no_personal = collect_nothing (check_table_pii_fields g table) items in
      let all =
        both_nothing _ _
          (both_nothing _ _
            (both_nothing _ _
              (both_nothing _ _
                (both_nothing _ _
                  (both_nothing _ _ (protection_nothing g table) (
                    first_reason_nothing {P = λ av. validate_schema g table av ≡ []}
                      (schema_reasons print units g table)
                      (λ av. if_any_nothing (schema_reason print) (validate_schema g table av))
                      avs))
                  sensitive)
                personal)
              (first_reason_nothing {P = λ av. estimated_size av ≤ max_individual_size}
                (λ av. size_reasons print (estimated_size av))
                (λ av. size_nothing print (estimated_size av)) avs))
            (guarded_nothing (validate_capacity_units g (pos (sum (map estimated_wcu avs)))) _))
          (guarded_nothing (ltb_ℤ g.config.risk_thresholds.batch_put_count (pos (length items)))
            _) in
      (
        λ h.
            let ((((((w, c), s), p), n), a), f) = all.0 h in
            record {
              writable = w;
              conform = c;
              nothing_sensitive = no_sensitive.0 s;
              nothing_personal = no_personal.0 p;
              small = n;
              affordable = a;
              few = f;
            },
        λ h. all.1 (
          (
            (
              (
                ((h.writable, h.conform), no_sensitive.1 h.nothing_sensitive),
                no_personal.1 h.nothing_personal,
              ),
              h.small,
            ),
            h.affordable,
          ),
          h.few,
        ),
      )

  reasons-AreTexts :
      (items : List (Assoc V)) (avs : List Item)
      → AreTexts (batch_put_reasons print units g table items avs)
  unfolding batch_put_reasons format_sensitive_fields
  reasons-AreTexts items avs =
      AreTexts-append _ _
        (AreTexts-append _ _
          (AreTexts-append _ _
            (AreTexts-append _ _
              (AreTexts-append _ _
                (AreTexts-append _ _ (protection-AreTexts g table) (
                  first_reason-AreTexts (schema_reasons print units g table)
                    (λ av.
                      if_any-AreTexts (schema_reason print) (validate_schema g table av)
                        (λ gs. append_some "Schema validation failed: " _ literals.0))
                    avs))
                (if_any-AreTexts
                  (λ fs. format_sensitive_fields fs g.config.enforce_password_hashing)
                  (collect (get_sensitive_fields g) items)
                  (λ gs. append_some "Item contains sensitive fields: " _ literals.1)))
              (if_any-AreTexts pii_reason (collect (check_table_pii_fields g table) items)
                (λ gs. append_some "Item contains table-specific PII fields: " _ literals.2)))
            (first_reason-AreTexts (λ av. size_reasons print (estimated_size av))
              (λ av. guarded-AreTexts _ _ (append_some "Item size (" _ literals.3)) avs))
          (guarded-AreTexts (validate_capacity_units g (pos (sum (map estimated_wcu avs)))) _
            (append_some "Total CapacityUnits " _ literals.4)))
        (guarded-AreTexts (ltb_ℤ g.config.risk_thresholds.batch_put_count (pos (length items))) _
          (append_some "Batch put of " _ literals.5))

  batch_put_cases :
      (marshal : Assoc V → Marshalled) (i : Assoc V) (items : List (Assoc V))
      → ((avs : List Item) × (marshal_items marshal (i ∷ items) ≡ inl avs)
          × (analyze_batch_put print units g table marshal (i ∷ items)
              ≡ assessed (assess table (batch_put_reasons print units g table (i ∷ items) avs))))
        ⊎ ((e : String) × (marshal_items marshal (i ∷ items) ≡ inr e)
            × (analyze_batch_put print units g table marshal (i ∷ items) ≡ analysis_error e))
  unfolding analyze_batch_put
  batch_put_cases marshal i items = elim (outcome (marshal_items marshal (i ∷ items))) [
    | inl (avs, e) ↦ inl (avs, e, ground (arith, e))
    | inr (err, e) ↦ inr (err, e, ground (arith, e))
  ]

  -- A batch of puts that nobody has confirmed goes on exactly when it is not empty, all its items
  -- can be marshalled, and it is harmless: the table is neither read-only nor protected; every item
  -- conforms to its schema, has no sensitive field and no personal one of the table, and is within
  -- the limit of one item; and the write units of all of them and their number are within the
  -- thresholds. Otherwise the caller is warned.
  pub batch_put_goes_on_iff :
      (marshal : Assoc V → Marshalled) (items : List (Assoc V))
      → (decide false (analyze_batch_put print units g table marshal items) ≡ goes_on) ↔ (
          (items ≢ [])
          × ((avs : List Item) × (marshal_items marshal items ≡ inl avs)
              × IsHarmlessBatch items avs))
  unfolding analyze_batch_put
  batch_put_goes_on_iff marshal [] = (
    λ h.
        absurd
          (cc (h, decide_medium "" _ (append_some "No items to put into table " table literals.6))),
    λ h. absurd (h.0 refl),
  )
  batch_put_goes_on_iff marshal (i ∷ items) = elim (batch_put_cases marshal i items) [
    | inl (avs, e, found) ↦
        let reasons : List String = batch_put_reasons print units g table (i ∷ items) avs in
        let none_left = goes_on_iff_none table reasons (reasons-AreTexts (i ∷ items) avs) in
        let harmless = reasons_nothing (i ∷ items) avs in
        rw found (
          λ h. (λ p. absurd cc, (avs, e, harmless.0 (none_left.0 h))),
          λ h. none_left.1 (
              harmless.1 (
                subst (IsHarmlessBatch (i ∷ items))
                  (inl_same (marshal_items marshal (i ∷ items)) h.1.0 avs h.1.1 e) h.1.2)),
        )
    | inr (err, e, found) ↦
        (λ h. absurd (cc (h, found, failed_is_warned err)), λ h. absurd (cc (e, h.1.1)))
  ]
