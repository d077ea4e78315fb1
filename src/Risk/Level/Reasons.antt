-- ===== src/Risk/Level/Reasons.antt =====
-- How a list of reasons decides a call: internal/risk/analyzer.go and checkRisk of server/tools.go.
use mcp_server_dynamodb_sage.Prelude.{
  String, ◌≡◌, ◌↔◌, refl, Bool, true, false, List, [], ◌∷◌, ◌++◌, All, str_eq, str_append,
  append_some, arith, if◌then◌else◌,
}
use mcp_server_dynamodb_sage.Risk.Level.{
  medium, is_risk, assess, get_risk_level, escalated_risk_level, join_reasons, assessed, check_risk,
  warned, goes_on, decide,
}

abbrev pub IsText : String → Type 0
IsText r = str_eq r "" ≡ false

-- No reason is the empty text.
pub record AreTexts (rs : List String) : Type 0 where
  pub each : All IsText rs

pub join_reasons_some : (r : String) (rs : List String) → IsText r → IsText (join_reasons (r ∷ rs))
unfolding join_reasons
join_reasons_some r [] h = h
join_reasons_some r (s ∷ rs) h = append_some r (str_append "; " (join_reasons (s ∷ rs))) h

pub is_risk_some : (r : String) (rs : List String) → is_risk (escalated_risk_level (r ∷ rs)) ≡ true
unfolding escalated_risk_level get_risk_level is_risk
is_risk_some r [] = ground arith
is_risk_some r (s ∷ rs) = ground arith

-- The decision on a call that nobody has confirmed.
pub decide_none : (table : String) → decide false (assessed (assess table [])) ≡ goes_on
unfolding decide check_risk escalated_risk_level get_risk_level is_risk str_eq
decide_none table = refl

pub decide_some :
    (table r : String) (rs : List String)
    → IsText r
    → decide false (assessed (assess table (r ∷ rs)))
      ≡ warned (str_append "detected risk: " (join_reasons (r ∷ rs)))
unfolding decide check_risk
decide_some table r rs h = ground (arith, is_risk_some r rs, join_reasons_some r rs h)

pub AreTexts-append : (xs ys : List String) → AreTexts xs → AreTexts ys → AreTexts (xs ++ ys)
AreTexts-append [] ys hx hy = hy
AreTexts-append (x ∷ xs) ys hx hy = record {
  each = (hx.each.0, (AreTexts-append xs ys (record { each = hx.each.1 }) hy).each);
}

pub goes_on_iff_none :
    (table : String) (rs : List String)
    → AreTexts rs
    → (decide false (assessed (assess table rs)) ≡ goes_on) ↔ (rs ≡ [])
goes_on_iff_none table [] all = (λ h. refl, λ h. decide_none table)
goes_on_iff_none table (r ∷ rs) all =
    (λ h. absurd (cc (h, decide_some table r rs all.each.0)), λ h. absurd cc)

pub append-nothing : (xs ys : List String) → (xs ++ ys ≡ []) ↔ ((xs ≡ []) × (ys ≡ []))
append-nothing [] ys = (λ h. (refl, h), λ h. h.1)
append-nothing (x ∷ xs) ys = (λ h. absurd cc, λ h. absurd (cc (h.0)))

pub decide_medium :
    (table r : String)
    → IsText r
    → decide false (assessed (record { table_name = table; level = medium; reason = r }))
      ≡ warned (str_append "detected risk: " r)
unfolding decide check_risk is_risk
decide_medium table r h = ground (arith, h)

-- A reason under a test.
pub guarded-AreTexts : (b : Bool) (r : String) → IsText r → AreTexts (if b then r ∷ [] else [])
guarded-AreTexts true r h = record { each = (h, tt) }
guarded-AreTexts false r h = record { each = tt }

pub guarded_nothing : (b : Bool) (r : String) → ((if b then r ∷ [] else []) ≡ []) ↔ (b ≡ false)
guarded_nothing true r = (λ h. absurd cc, λ h. absurd cc)
guarded_nothing false r = (λ h. refl, λ h. refl)

pub both_nothing :
    {P Q : Type 0} (xs ys : List String) → (xs ≡ []) ↔ P → (ys ≡ []) ↔ Q → (xs ++ ys ≡ []) ↔ (P × Q)
both_nothing xs ys p q = (
  λ h. let both = (append-nothing xs ys).0 h in (p.0 both.0, q.0 both.1),
  λ h. (append-nothing xs ys).1 (p.1 h.0, q.1 h.1),
)
