-- ===== src/Risk/Updates/Reasons.antt =====
-- The reasons against an update in internal/risk/analyzer.go, and when there are none.
use mcp_server_dynamodb_sage.Prelude.{
  ℕ, ◌≤◌, ◌⊎◌, inl, inr, String, ◌≡◌, ◌↔◌, false, [], Assoc, ltb, str_append, append_some, arith,
  Bool-cases,
}
use mcp_server_dynamodb_sage.Engine.Values.{Item, estimated_size}
use mcp_server_dynamodb_sage.Engine.Guardrail.{
  Guardrail, max_individual_size, validate_read_only_table, validate_protected_table,
  validate_schema, get_sensitive_fields, check_table_pii_fields,
}
use mcp_server_dynamodb_sage.Risk.Level.{join_reasons}
use mcp_server_dynamodb_sage.Risk.Level.Reasons.{
  AreTexts, AreTexts-append, guarded-AreTexts, both_nothing,
}
use mcp_server_dynamodb_sage.Risk.Writes.{Marshalled, Printer, schema_reason}
use mcp_server_dynamodb_sage.Risk.Writes.Blocking.{
  if_any-AreTexts, if_any_nothing, protection-AreTexts, protection_nothing,
}
use mcp_server_dynamodb_sage.Risk.Updates.{
  check_expression_complexity, payload_reasons, update_reasons,
}
use mcp_server_dynamodb_sage.Risk.Updates.Texts.{
  literals, if_said-AreTexts, if_said_nothing, IsSimple, expression_nothing,
}

module _ {F V : Type 0} (print : Printer) (g : Guardrail F) (table : String)
    (marshal : Assoc V → Marshalled) (unmarshal : Item → Assoc V ⊎ String) where
  pub reasons-AreTexts :
      (values : Assoc V) (av : Item) (expression current updated : String)
      → AreTexts
          (update_reasons print g table marshal unmarshal values av expression current updated)
  unfolding update_reasons
  reasons-AreTexts values av expression current updated =
      AreTexts-append _ _
        (AreTexts-append _ _
          (AreTexts-append _ _
            (AreTexts-append _ _
              (AreTexts-append _ _
                (AreTexts-append _ _
                  (AreTexts-append _ _ (protection-AreTexts g table) (
                    if_any-AreTexts (schema_reason print) (validate_schema g table av)
                      (λ gs. append_some "Schema validation failed: " _ literals.0)))
                  (if_any-AreTexts
                    (λ fs. str_append "Update item contains PII_fields " (join_reasons fs))
                    (check_table_pii_fields g table values)
                    (λ gs. append_some "Update item contains PII_fields " _ literals.1)))
                (if_any-AreTexts
                  (λ fs. str_append "Update item contains sensitive_fields " (join_reasons fs))
                  (get_sensitive_fields g values)
                  (λ gs. append_some "Update item contains sensitive_fields " _ literals.2)))
              (if_said-AreTexts current))
            (guarded-AreTexts _ _ (append_some "Updated payload" _ literals.4)))
          (if_said-AreTexts updated))
        (if_said-AreTexts (check_expression_complexity print g expression))

  payload_nothing :
      (size : ℕ)
      → (payload_reasons print g table marshal unmarshal size ≡ []) ↔ (size ≤ max_individual_size)
  payload_nothing size = elim (Bool-cases (ltb max_individual_size size)) [
    | inl e ↦ (λ h. ground (arith, h, e), λ h. ground (arith, h, e))
    | inr e ↦ (λ h. ground (arith, h, e), λ h. ground (arith, h, e))
  ]

  pub reasons_nothing :
      (values : Assoc V) (av : Item) (expression current updated : String)
      → (update_reasons print g table marshal unmarshal values av expression current updated ≡ [])
        ↔ (((validate_read_only_table g table ≡ false) × (validate_protected_table g table ≡ false))
            × (validate_schema g table av ≡ [])
            × (check_table_pii_fields g table values ≡ [])
            × (get_sensitive_fields g values ≡ [])
            × (current ≡ "")
            × (estimated_size av ≤ max_individual_size)
            × (updated ≡ "")
            × IsSimple g expression)
  unfolding update_reasons
  reasons_nothing values av expression current updated =
      let simple = expression_nothing print g expression in
      let all =
        both_nothing _ _
          (both_nothing _ _
            (both_nothing _ _
              (both_nothing _ _
                (both_nothing _ _
                  (both_nothing _ _
                    (both_nothing _ _ (protection_nothing g table)
                      (if_any_nothing (schema_reason print) (validate_schema g table av)))
                    (if_any_nothing
                      (λ fs. str_append "Update item contains PII_fields " (join_reasons fs))
                      (check_table_pii_fields g table values)))
                  (if_any_nothing
                    (λ fs. str_append "Update item contains sensitive_fields " (join_reasons fs))
                    (get_sensitive_fields g values)))
                (if_said_nothing current))
              (payload_nothing (estimated_size av)))
            (if_said_nothing updated))
          (if_said_nothing (check_expression_complexity print g expression)) in
      (
        λ h.
            let (((((((w, c), p), s), cur), n), u), e) = all.0 h in
            (w, c, p, s, cur, n, u, simple.0 e),
        λ h.
            let (w, c, p, s, cur, n, u, e) = h in
            all.1 (((((((w, c), p), s), cur), n), u), simple.1 e),
      )
