-- ===== src/Risk/Capacity/Batches.antt =====
-- Which batches of reads, and which changes of a table, the analysis of internal/risk/analyzer.go lets
-- through.
use mathlib.Core.Path.{subst}
use mcp_server_dynamodb_sage.Prelude.{
  ℕ, ◌≤◌, ◌⊎◌, inl, inr, String, ◌≡◌, ◌↔◌, refl, false, Option, none, some, List, [], ◌∷◌, ◌++◌,
  Assoc, length, sum, map, ltb, str_eq, append_some, arith, Bool-cases,
}
use mcp_server_dynamodb_sage.Prelude.Int.{pos, ltb_ℤ}
use mcp_server_dynamodb_sage.Prelude.Float.{Arithmetic}
use mcp_server_dynamodb_sage.Engine.Values.{Item, estimated_size}
use mcp_server_dynamodb_sage.Engine.Guardrail.{
  Guardrail, max_batch_size, validate_capacity_units, estimated_half_rcu, validate_read_only_table,
  validate_protected_table,
}
use mcp_server_dynamodb_sage.Risk.Level.{check_table_protection, goes_on, decide}
use mcp_server_dynamodb_sage.Risk.Level.Reasons.{
  IsText, AreTexts, AreTexts-append, goes_on_iff_none, guarded-AreTexts, guarded_nothing,
  both_nothing,
}
use mcp_server_dynamodb_sage.Risk.Writes.{Marshalled}
use mcp_server_dynamodb_sage.Risk.Writes.Blocking.{protection-AreTexts, protection_nothing}
use mcp_server_dynamodb_sage.Risk.Writes.Protected.{outcome, failed_is_warned}
use mcp_server_dynamodb_sage.Risk.BatchPut.{marshal_items}
use mcp_server_dynamodb_sage.Risk.Capacity.{
  Texts, validate_capacity, capacity_given, analyze_update_table, get_count_reasons,
  request_size_reasons, halves, batch_get_reasons, analyze_batch_get,
}
use mcp_server_dynamodb_sage.Risk.Capacity.Scans.{plain_goes_on}

literals :
    IsText "Total CapacityUnits "
    × IsText "BatchGetItems request for "
    × IsText "BatchGetItems request size ("
unfolding str_eq
literals = (refl, refl, refl)

inl_same : {A : Type 0} (r : A ⊎ String) (x y : A) → r ≡ inl x → r ≡ inl y → x ≡ y
inl_same r x y p q = cc

module _ {F : Type 0} (f : Arithmetic F) (texts : Texts F) (g : Guardrail F) (table : String) where
  capacity-AreTexts : (cu : F) → AreTexts (validate_capacity f texts g cu)
  unfolding validate_capacity
  capacity-AreTexts cu = guarded-AreTexts _ _ (append_some "Total CapacityUnits " _ literals.0)

  capacity_nothing :
      (cu : F)
      → (validate_capacity f texts g cu ≡ []) ↔ (validate_capacity_units g (f.int_part cu) ≡ false)
  unfolding validate_capacity
  capacity_nothing cu = guarded_nothing (validate_capacity_units g (f.int_part cu)) _

  -- A capacity that is not given, or is within the threshold.
  abbrev pub IsGivenWithin : Option F → Type 0
  IsGivenWithin none = Unit
  IsGivenWithin (some cu) = validate_capacity_units g (f.int_part cu) ≡ false

  given-AreTexts : (cu : Option F) → AreTexts (capacity_given f texts g table cu)
  given-AreTexts none = record { each = tt }
  given-AreTexts (some cu) = capacity-AreTexts cu

  given_nothing : (cu : Option F) → (capacity_given f texts g table cu ≡ []) ↔ IsGivenWithin cu
  given_nothing none = (λ h. tt, λ h. refl)
  given_nothing (some cu) = capacity_nothing cu

  -- A change of a table that nobody has confirmed goes on exactly when the capacities that it asks
  -- for are within the threshold and the table is neither read-only nor protected, whatever DynamoDB
  -- says of the table.
  pub update_table_goes_on_iff :
      (read_capacity write_capacity : Option F)
      → (decide false (analyze_update_table f texts g table read_capacity write_capacity) ≡ goes_on)
        ↔ (IsGivenWithin read_capacity
            × IsGivenWithin write_capacity
            × ((validate_read_only_table g table ≡ false)
                × (validate_protected_table g table ≡ false)))
  unfolding analyze_update_table
  update_table_goes_on_iff r w =
      let none_left =
        goes_on_iff_none table
          (capacity_given f texts g table r
            ++ capacity_given f texts g table w
            ++ check_table_protection g table)
          (AreTexts-append _ _ (AreTexts-append _ _ (given-AreTexts r) (given-AreTexts w))
            (protection-AreTexts g table)) in
      let all =
        both_nothing _ _ (both_nothing _ _ (given_nothing r) (given_nothing w))
          (protection_nothing g table) in
      (
        λ h. let ((a, b), c) = all.0 (none_left.0 h) in (a, b, c),
        λ h. let (a, b, c) = h in none_left.1 (all.1 ((a, b), c)),
      )

  -- Keys that may be read in one batch: their number, their size and their units are within the
  -- thresholds, where there are any.
  abbrev pub IsLight : List Item → Type 0
  IsLight [] = ltb_ℤ g.config.risk_thresholds.batch_get_count (pos 0) ≡ false
  IsLight (k ∷ ks) =
      (ltb_ℤ g.config.risk_thresholds.batch_get_count (pos (length (k ∷ ks))) ≡ false)
      × (sum (map estimated_size (k ∷ ks)) ≤ max_batch_size)
      × (validate_capacity_units g (
            f.int_part
              (halves f texts g table (sum (map (λ av. estimated_half_rcu av false) (k ∷ ks)))))
          ≡ false)

  count-AreTexts : (n : ℕ) → AreTexts (get_count_reasons f texts g table n)
  count-AreTexts n = guarded-AreTexts _ _ (append_some "BatchGetItems request for " _ literals.1)

  batch_get-AreTexts : (avs : List Item) → AreTexts (batch_get_reasons f texts g table avs)
  unfolding batch_get_reasons
  batch_get-AreTexts [] = count-AreTexts 0
  batch_get-AreTexts (k ∷ ks) =
      AreTexts-append _ _
        (AreTexts-append _ _ (count-AreTexts (length (k ∷ ks)))
          (guarded-AreTexts _ _ (append_some "BatchGetItems request size (" _ literals.2)))
        (capacity-AreTexts _)

  request_nothing :
      (size : ℕ) → (request_size_reasons f texts g table size ≡ []) ↔ (size ≤ max_batch_size)
  request_nothing size = elim (Bool-cases (ltb max_batch_size size)) [
    | inl e ↦ (λ h. ground (arith, h, e), λ h. ground (arith, h, e))
    | inr e ↦ (λ h. ground (arith, h, e), λ h. ground (arith, h, e))
  ]

  batch_get_nothing : (avs : List Item) → (batch_get_reasons f texts g table avs ≡ []) ↔ IsLight avs
  unfolding batch_get_reasons
  batch_get_nothing [] = guarded_nothing (ltb_ℤ g.config.risk_thresholds.batch_get_count (pos 0)) _
  batch_get_nothing (k ∷ ks) =
      let all =
        both_nothing _ _
          (both_nothing _ _
            (guarded_nothing
              (ltb_ℤ g.config.risk_thresholds.batch_get_count (pos (length (k ∷ ks)))) _)
            (request_nothing (sum (map estimated_size (k ∷ ks)))))
          (capacity_nothing
            (halves f texts g table (sum (map (λ av. estimated_half_rcu av false) (k ∷ ks))))) in
      (λ h. let ((c, s), u) = all.0 h in (c, s, u), λ h. let (c, s, u) = h in all.1 ((c, s), u))

  -- A batch of reads that nobody has confirmed goes on exactly when all its keys can be marshalled,
  -- and their number is within the threshold and, where there are any, their size and the read units
  -- that they are counted for as well.
  pub batch_get_goes_on_iff :
      {V : Type 0} (marshal : Assoc V → Marshalled) (keys : List (Assoc V))
      → (decide false (analyze_batch_get f texts g table marshal keys) ≡ goes_on)
        ↔ ((avs : List Item) × (marshal_items marshal keys ≡ inl avs) × IsLight avs)
  unfolding analyze_batch_get
  batch_get_goes_on_iff marshal keys = elim (outcome (marshal_items marshal keys)) [
    | inr (err, e) ↦ rw e (λ h. absurd (cc (h, failed_is_warned err)), λ h. absurd (cc (h.1)))
    | inl (avs, e) ↦
        let none_left =
          plain_goes_on table (batch_get_reasons f texts g table avs) (batch_get-AreTexts avs) in
        let light = batch_get_nothing avs in
        (
          λ h. (avs, e, light.0 (none_left.0 (ground (arith, h, e)))),
          λ h.
              let (others, same, v) = h in
              ground (
                arith,
                e,
                none_left.1 (
                    light.1
                      (subst IsLight (inl_same (marshal_items marshal keys) others avs same e) v)),
              ),
        )
  ]
