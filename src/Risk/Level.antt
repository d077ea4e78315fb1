-- ===== src/Risk/Level.antt =====
-- The levels of internal/risk/analyzer.go, and checkRisk and withRiskAnalysis of server/tools.go,
-- which warn of a risk.
pub mod Reasons
use mcp_server_dynamodb_sage.Prelude.{
  ℕ, String, Bool, true, false, not, ◌||◌, Option, none, some, List, [], ◌∷◌, ◌++◌, any, length,
  leb, ltb, str_eq, contains, str_append, if◌then◌else◌,
}
use mcp_server_dynamodb_sage.Engine.Guardrail.{
  Guardrail, validate_read_only_table, validate_protected_table,
}

pub data RiskLevel : Type 0 where
  low medium high critical : RiskLevel

pub record Assessment : Type 0 where
  pub table_name : String
  pub level : RiskLevel
  pub reason : String

-- Level >= engine.MediumRiskLevel
unfoldable pub is_risk : RiskLevel → Bool
is_risk low = false
is_risk medium = true
is_risk high = true
is_risk critical = true

unfoldable pub get_risk_level : List String → RiskLevel
get_risk_level [] = low
get_risk_level (r ∷ []) = medium
get_risk_level (r ∷ s ∷ rs) = high

-- Whether a reason speaks of a protected table.
abbrev pub blocks : String → Bool
blocks r = contains r "readonly" || contains r "protectedTable"

unfoldable pub escalated_risk_level : List String → RiskLevel
unfolding get_risk_level
escalated_risk_level reasons = if any blocks reasons then high else get_risk_level reasons

-- strings.Join(reason, "; ")
unfoldable pub join_reasons : List String → String
join_reasons [] = ""
join_reasons (r ∷ []) = r
join_reasons (r ∷ s ∷ rs) = str_append r (str_append "; " (join_reasons (s ∷ rs)))

abbrev pub assess : String → List String → Assessment
assess table reasons = record {
  table_name = table;
  level = escalated_risk_level reasons;
  reason = join_reasons reasons;
}

-- protectionError
abbrev pub protection_error : String → String → String
protection_error prefix e = str_append prefix (str_append " table access blocked: " e)

unfoldable pub check_table_protection : {F : Type 0} → Guardrail F → String → List String
check_table_protection g table =
    (if validate_read_only_table g table
      then protection_error "readonly" (str_append "table " (str_append table " is read-only")) ∷ []
      else [])
    ++ (if validate_protected_table g table
        then protection_error "protectedTable"
            (str_append "table " (str_append table " is protected and cannot be modified"))
          ∷ []
        else [])

-- What Analyze gives: an assessment, or an error.
pub data Analysis : Type 0 where
  assessed : Assessment → Analysis
  analysis_error : String → Analysis

-- checkRisk: the reason, empty if there is none, or an error.
pub data Checked : Type 0 where
  reason_found : String → Checked
  check_failed : String → Checked

unfoldable pub check_risk : (confirmed : Bool) → Analysis → Checked
check_risk true analysis = reason_found ""
check_risk false (analysis_error e) = check_failed e
check_risk false (assessed a) = if is_risk a.level then reason_found a.reason else reason_found ""

-- What withRiskAnalysis does after checkRisk: it warns, with the text of the warning, or goes on.
pub data Decision : Type 0 where
  warned : String → Decision
  goes_on : Decision

unfoldable pub decide : (confirmed : Bool) → Analysis → Decision
unfolding check_risk
decide confirmed analysis = elim (check_risk confirmed analysis) [
  | check_failed e ↦ warned (str_append "risk analysis failed: " e)
  | reason_found r ↦ if str_eq r "" then goes_on else warned (str_append "detected risk: " r)
]
