-- ===== src/Server/Registry/Confirm.antt =====
-- The confirmation that a warning of server/tools.go asks for, and the tools' definitions there.
use mathlib.Core.Path.{subst}
use mcp_server_dynamodb_sage.Prelude.{
  ◌⊎◌, inl, inr, String, Bool, true, false, ◌≡◌, ◌≢◌, sym, refl, some, List, [], ◌∷◌, All, any,
  str_eq, str_eq_iff, lookup, arith, Bool-cases,
}
use mcp_server_dynamodb_sage.Engine.Guardrail.{Guardrail}
use mcp_server_dynamodb_sage.Risk.Level.{goes_on, decide, check_risk, is_risk}
use mcp_server_dynamodb_sage.Risk.Dispatch.{Arguments, Surroundings, low_risk, analyze}
use mcp_server_dynamodb_sage.Server.Registry.{ToolDef, build_tool_defs, find_def, basic_defs}

abbrev analysed : List String
analysed =
    "scan_table" ∷ "batch_delete_items" ∷ "batch_get_items" ∷ "batch_put_items" ∷ "delete_item"
    ∷ "delete_table" ∷ "update_table" ∷ "put_item" ∷ "update_item" ∷ "create_optimized_table" ∷ []

any_of :
    (P : String → Type 0) (ks : List String) (name : String)
    → All P ks
    → any (λ k. str_eq name k) ks ≡ true
    → P name
any_of P [] name all h = absurd cc
any_of P (k ∷ ks) name all h = elim (Bool-cases (str_eq name k)) [
  | inl same ↦ subst P (sym ((str_eq_iff name k).0 same)) all.0
  | inr other ↦ any_of P ks name all.1 (ground (arith, h, other))
]

-- A tool whose definition has a boolean property `confirmation`.
pub record IsConfirmable (rag : Bool) (name : String) : Type 0 where
  pub def : ToolDef
  pub defined : find_def name (build_tool_defs rag) ≡ some def
  pub has_confirmation : lookup "confirmation" def.properties ≡ some "boolean"

analysed-AreConfirmable : (rag : Bool) → All (IsConfirmable rag) analysed
unfolding build_tool_defs basic_defs str_eq
analysed-AreConfirmable rag = (
  record { def = _; defined = refl; has_confirmation = refl },
  (
    record { def = _; defined = refl; has_confirmation = refl },
    (
      record { def = _; defined = refl; has_confirmation = refl },
      (
        record { def = _; defined = refl; has_confirmation = refl },
        (
          record { def = _; defined = refl; has_confirmation = refl },
          (
            record { def = _; defined = refl; has_confirmation = refl },
            (
              record { def = _; defined = refl; has_confirmation = refl },
              (
                record { def = _; defined = refl; has_confirmation = refl },
                (
                  record { def = _; defined = refl; has_confirmation = refl },
                  (record { def = _; defined = refl; has_confirmation = refl }, tt),
                ),
              ),
            ),
          ),
        ),
      ),
    ),
  ),
)

low_risk-goes_on : decide false low_risk ≡ goes_on
unfolding decide check_risk is_risk str_eq
low_risk-goes_on = refl

module _ {F V : Type 0} (s : Surroundings F V) (g : Guardrail F) where
  not_analysed :
      (name : String) (args : Arguments F V ⊎ String)
      → any (λ k. str_eq name k) analysed ≡ false
      → analyze s g name args ≡ low_risk
  unfolding analyze
  not_analysed name args h = ground (arith, h)

  -- Whatever a tool's arguments and its surroundings, if a call that is not confirmed is held back,
  -- the tool's definition has the property by which the warning asks to confirm it, with the
  -- documents' tools or without.
  pub analyze-IsConfirmable :
      (rag : Bool) (name : String) (args : Arguments F V ⊎ String)
      → decide false (analyze s g name args) ≢ goes_on
      → IsConfirmable rag name
  analyze-IsConfirmable rag name args h = elim (Bool-cases (any (λ k. str_eq name k) analysed)) [
    | inl found ↦ any_of (IsConfirmable rag) analysed name (analysed-AreConfirmable rag) found
    | inr missing ↦ absurd (h (rw (not_analysed name args missing) low_risk-goes_on))
  ]
