-- ===== src/Risk/Capacity/Scans.antt =====
-- Which scans the analysis of internal/risk/analyzer.go lets through.
use mcp_server_dynamodb_sage.Prelude.{
  ◌⊎◌, inl, inr, String, ◌≡◌, ◌↔◌, refl, Bool, true, false, ◌&&◌, Option, none, some, List, [], ◌∷◌,
  str_eq, str_append, append_some, arith,
}
use mcp_server_dynamodb_sage.Prelude.Int.{pos}
use mcp_server_dynamodb_sage.Prelude.Float.{Arithmetic}
use mcp_server_dynamodb_sage.Engine.Guardrail.{Guardrail}
use mcp_server_dynamodb_sage.Risk.Level.{
  is_risk, get_risk_level, join_reasons, assessed, check_risk, warned, goes_on, decide,
}
use mcp_server_dynamodb_sage.Risk.Level.Reasons.{
  IsText, AreTexts, AreTexts-append, join_reasons_some, guarded-AreTexts, guarded_nothing,
  both_nothing,
}
use mcp_server_dynamodb_sage.Risk.Writes.Protected.{failed_is_warned}
use mcp_server_dynamodb_sage.Risk.Capacity.{
  assess_plainly, Texts, TableSize, Description, described, describe_failed, safe_int64, to_mb,
  estimated_read_cost, scan_reasons, analyze_scan,
}

risk_some : (r : String) (rs : List String) → is_risk (get_risk_level (r ∷ rs)) ≡ true
unfolding get_risk_level is_risk
risk_some r [] = refl
risk_some r (s ∷ rs) = refl

-- A call whose level is not escalated goes on when there is no reason, as any other.
pub plain_goes_on :
    (table : String) (rs : List String)
    → AreTexts rs
    → (decide false (assessed (assess_plainly table rs)) ≡ goes_on) ↔ (rs ≡ [])
unfolding decide check_risk get_risk_level is_risk str_eq
plain_goes_on table [] all = (λ h. refl, λ h. refl)
plain_goes_on table (r ∷ rs) all =
    (λ h. absurd (cc (h, stopped table r rs all.each.0)), λ h. absurd cc)
  where
    stopped :
        (table r : String) (rs : List String)
        → IsText r
        → decide false (assessed (assess_plainly table (r ∷ rs)))
          ≡ warned (str_append "detected risk: " (join_reasons (r ∷ rs)))
    stopped table r rs h = ground (arith, risk_some r rs, join_reasons_some r rs h)

literals : IsText "Table size (" × IsText "Scan cost ($"
unfolding str_eq
literals = (refl, refl)

module _ {F : Type 0} (f : Arithmetic F) (texts : Texts F) (g : Guardrail F) (table : String) where
  -- A table that may be scanned: its size is within the threshold, and so is the price of reading it,
  -- if there is a threshold for that.
  pub record IsCheap (t : TableSize) : Type 0 where
    pub small :
        f.lt g.config.risk_thresholds.table_size_mb (to_mb f texts (safe_int64 t.table_size_bytes))
        ≡ false
    pub affordable :
        (f.lt (f.of_int (pos 0)) g.config.risk_thresholds.scan_cost_usd ≡ false)
        ⊎ (f.lt g.config.risk_thresholds.scan_cost_usd (estimated_read_cost f texts t).1 ≡ false)

  both_false : (a b : Bool) → ((a && b) ≡ false) ↔ ((a ≡ false) ⊎ (b ≡ false))
  both_false true b = (λ h. inr h, λ h. ground (arith, h))
  both_false false b = (λ h. inl refl, λ h. refl)

  scan_nothing : (t : TableSize) → (scan_reasons f texts g table t ≡ []) ↔ IsCheap t
  unfolding scan_reasons
  scan_nothing t =
      let price =
        both_false (f.lt (f.of_int (pos 0)) g.config.risk_thresholds.scan_cost_usd)
          (f.lt g.config.risk_thresholds.scan_cost_usd (estimated_read_cost f texts t).1) in
      let all =
        both_nothing _ _
          (guarded_nothing
            (f.lt g.config.risk_thresholds.table_size_mb
              (to_mb f texts (safe_int64 t.table_size_bytes)))
            _)
          (guarded_nothing
            (f.lt (f.of_int (pos 0)) g.config.risk_thresholds.scan_cost_usd
              && f.lt g.config.risk_thresholds.scan_cost_usd (estimated_read_cost f texts t).1)
            _) in
      (
        λ h. let (s, c) = all.0 h in record { small = s; affordable = price.0 c },
        λ h. all.1 (h.small, price.1 h.affordable),
      )

  scan-AreTexts : (t : TableSize) → AreTexts (scan_reasons f texts g table t)
  unfolding scan_reasons
  scan-AreTexts t =
      AreTexts-append _ _ (guarded-AreTexts _ _ (append_some "Table size (" _ literals.0))
        (guarded-AreTexts _ _ (append_some "Scan cost ($" _ literals.1))

  -- What is known of the table: nothing, as there is no client, or that it is cheap.
  abbrev pub MayScan : Option Description → Type 0
  MayScan none = Unit
  MayScan (some (describe_failed e)) = ⊥
  MayScan (some (described t)) = IsCheap t

  -- A scan that nobody has confirmed goes on exactly when there is no client to ask, or the table can
  -- be described, its size is within the threshold, and there is no threshold for the price or the
  -- price of reading the table is within it.
  pub scan_goes_on_iff :
      (db : Option Description)
      → (decide false (analyze_scan f texts g table db) ≡ goes_on) ↔ MayScan db
  unfolding analyze_scan
  scan_goes_on_iff none = (λ h. tt, λ h. (plain_goes_on table [] (record { each = tt })).1 refl)
  scan_goes_on_iff (some (describe_failed e)) = (
    λ h. absurd (cc (h, failed_is_warned (str_append "failed to describe table: " e))),
    λ h. absurd h,
  )
  scan_goes_on_iff (some (described t)) =
      let none_left = plain_goes_on table (scan_reasons f texts g table t) (scan-AreTexts t) in
      let cheap = scan_nothing t in (λ h. cheap.0 (none_left.0 h), λ h. none_left.1 (cheap.1 h))
