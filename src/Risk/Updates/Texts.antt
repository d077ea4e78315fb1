-- ===== src/Risk/Updates/Texts.antt =====
-- The texts of the analysis of an update in internal/risk/analyzer.go: which are empty, and the check
-- of the expression.
use mcp_server_dynamodb_sage.Prelude.{
  ◌≤◌, inl, inr, String, ◌≡◌, ◌↔◌, refl, true, false, [], ◌∷◌, ◌==◌, str_eq, str_eq_iff, arith,
  trim_space, Bool-cases, if◌then◌else◌,
}
use mcp_server_dynamodb_sage.Prelude.Int.{pos, ltb_ℤ}
use mcp_server_dynamodb_sage.Engine.Guardrail.{Guardrail}
use mcp_server_dynamodb_sage.Risk.Level.Reasons.{IsText, AreTexts}
use mcp_server_dynamodb_sage.Risk.Writes.{Printer}
use mcp_server_dynamodb_sage.Risk.Updates.{clauses, actions, check_expression_complexity}

pub literals :
    IsText "Schema validation failed: "
    × IsText "Update item contains PII_fields "
    × IsText "Update item contains sensitive_fields "
    × IsText "current item contains sensitive_fields "
    × IsText "Updated payload"
    × IsText "Updated item"
    × IsText "Payload"
    × IsText "update expression is empty"
    × IsText "Invalid update expression"
    × IsText "Too many actions in the expression"
unfolding str_eq
literals = (refl, refl, refl, refl, refl, refl, refl, refl, refl, refl)

empty_is_empty : str_eq "" "" ≡ true
unfolding str_eq
empty_is_empty = refl

pub if_said-AreTexts : (t : String) → AreTexts (if str_eq t "" then [] else t ∷ [])
if_said-AreTexts t = elim (Bool-cases (str_eq t "")) [
  | inl e ↦ rw e (record { each = tt })
  | inr e ↦ rw e (record { each = (e, tt) })
]

pub if_said_nothing : (t : String) → ((if str_eq t "" then [] else t ∷ []) ≡ []) ↔ (t ≡ "")
if_said_nothing t = elim (Bool-cases (str_eq t "")) [
  | inl e ↦ (λ h. (str_eq_iff t "").0 e, λ h. rw e refl)
  | inr e ↦
      (λ h. absurd (ground (arith, h, e)), λ h. absurd (ground (arith, e, (str_eq_iff t "").1 h)))
]

-- A text that is not empty is no empty text.
pub not_said : (t : String) → IsText t → t ≡ "" → ⊥
not_said t h e = cc (h, (str_eq_iff t "").1 e)

-- An expression that the analysis has nothing against: it is not blank, a clause begins it or
-- follows a space in it, and its actions are within the threshold.
pub record IsSimple {F : Type 0} (g : Guardrail F) (expression : String) : Type 0 where
  pub not_blank : str_eq (trim_space expression) "" ≡ false
  pub has_clause : 1 ≤ clauses (trim_space expression)
  pub few_actions :
      ltb_ℤ g.config.risk_thresholds.update_expression_depth (pos (actions (trim_space expression)))
      ≡ false

pub expression_nothing :
    {F : Type 0} (print : Printer) (g : Guardrail F) (e : String)
    → (check_expression_complexity print g e ≡ "") ↔ IsSimple g e
unfolding check_expression_complexity
expression_nothing print g e = elim (Bool-cases (str_eq (trim_space e) "")) [
  | inl blank ↦ (
    λ h. absurd (not_said _ literals.7 (ground (arith, h, blank))),
    λ h. absurd (cc (blank, h.not_blank)),
  )
  | inr some_text ↦ elim (Bool-cases (clauses (trim_space e) == 0)) [
    | inl no_clause ↦ (
      λ h. absurd (not_said _ literals.8 (ground (arith, h, some_text, no_clause))),
      λ h. absurd (ground (arith, no_clause, h.has_clause)),
    )
    | inr clause ↦
        elim (Bool-cases
          (ltb_ℤ g.config.risk_thresholds.update_expression_depth (pos (actions (trim_space e))))) [
            | inl many ↦ (
              λ h. absurd (not_said _ literals.9 (ground (arith, h, some_text, clause, many))),
              λ h. absurd (cc (many, h.few_actions)),
            )
            | inr few ↦ (
              λ h. record {
                not_blank = some_text;
                has_clause = ground (arith, clause);
                few_actions = few;
              },
              λ h. ground (arith, some_text, clause, few),
            )
          ]
  ]
]
