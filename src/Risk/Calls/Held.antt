-- ===== src/Risk/Calls/Held.antt =====
-- Which calls withRiskAnalysis of server/tools.go makes, and which it holds back.
use mcp_server_dynamodb_sage.Prelude.{
  ◌⊎◌, inl, inr, String, ◌≡◌, ◌≢◌, ◌↔◌, refl, true, false, Option, none, some, List, [], ◌∷◌, arith,
  Bool, ap, str_append, Bool-cases, str_eq, str_eq_iff, str_eq_refl,
}
use mcp_server_dynamodb_sage.Engine.Guardrail.{Guardrail}
use mcp_server_dynamodb_sage.Risk.Level.{
  RiskLevel, low, medium, high, critical, is_risk, Analysis, assessed, analysis_error, check_risk,
  Decision, warned, goes_on, decide,
}
use mcp_server_dynamodb_sage.Risk.Writes.Protected.{is_closed}
use mcp_server_dynamodb_sage.Risk.Dispatch.{Arguments, Surroundings, analyze}
use mcp_server_dynamodb_sage.Risk.Dispatch.Guarded.{
  GuardedTool, name_of, closed_table_is_never_written,
}
use mcp_server_dynamodb_sage.Risk.Advisor.{History, track_and_advise}
use mcp_server_dynamodb_sage.Risk.Calls.{
  Converted, converted, not_converted, Call, Advice, handled, format_warning_result,
  suggestions_text, after_send, deliver, enqueue, call_handler, carry_out, after_decision,
  with_converted, with_risk_analysis,
}
use mcp_server_dynamodb_sage.Server.Jobs.Execute.{CallToolResult, is_large_operation}

-- An analysis that ends without an error, and finds no risk or gives no reason for it.
abbrev pub FindsNothing : Analysis → Type 0
FindsNothing (analysis_error e) = ⊥
FindsNothing (assessed a) = (a.level ≡ low) ⊎ (a.reason ≡ "")

-- None of the operations that are queued.
abbrev pub IsSmall : String → Type 0
IsSmall name =
    (name ≢ "create_optimized_table")
    × (name ≢ "batch_put_items")
    × (name ≢ "batch_delete_items")
    × (name ≢ "ingest_document")

level_cases : (l : RiskLevel) → (l ≡ low) ⊎ (is_risk l ≡ true)
unfolding is_risk
level_cases low = inl refl
level_cases medium = inr refl
level_cases high = inr refl
level_cases critical = inr refl

goes_on_iff :
    (confirmed : Bool) (a : Analysis)
    → (decide confirmed a ≡ goes_on) ↔ ((confirmed ≡ true) ⊎ FindsNothing a)
unfolding decide check_risk is_risk
goes_on_iff true a = (λ h. inl refl, λ h. ground (arith, str_eq_refl ""))
goes_on_iff false (analysis_error e) = (λ h. absurd cc, found)
  where
    found : (false ≡ true) ⊎ ⊥ → warned (str_append "risk analysis failed: " e) ≡ goes_on
    found (inl p) = absurd cc
    found (inr b) = elim b [ ]
goes_on_iff false (assessed a) = elim (level_cases a.level) [
  | inl safe ↦ (λ h. inr (inl safe), λ h. ground (arith, safe, str_eq_refl ""))
  | inr risk ↦ elim (Bool-cases (str_eq a.reason "")) [
    | inl blank ↦
        (λ h. inr (inr ((str_eq_iff a.reason "").0 blank)), λ h. ground (arith, risk, blank))
    | inr given ↦ (λ h. absurd (ground (arith, h, risk, given)), λ h. absurd (risky risk given h))
  ]
]
  where
    risky :
        is_risk a.level ≡ true
        → str_eq a.reason "" ≡ false
        → (false ≡ true) ⊎ FindsNothing (assessed a)
        → ⊥
    risky risk given (inl p) = cc
    risky risk given (inr (inl safe)) = ground (arith, risk, ap is_risk safe)
    risky risk given (inr (inr blank)) = ground (arith, given, (str_eq_iff a.reason "").1 blank)

IsSmall-iff : (name : String) → (is_large_operation name ≡ false) ↔ IsSmall name
unfolding is_large_operation
IsSmall-iff name = ground (
  arith,
  str_eq_iff name "create_optimized_table",
  str_eq_iff name "batch_put_items",
  str_eq_iff name "batch_delete_items",
  str_eq_iff name "ingest_document",
)

module _ {F V : Type 0} (call : Call F V) where
  never_handled_sent :
      (payload msg : String) (history : History) (answer : Option String)
      → (after_send call payload msg history answer).deeds ≢ handled ∷ []
  unfolding after_send
  never_handled_sent payload msg history none p = absurd cc
  never_handled_sent payload msg history (some e) p = absurd cc

  never_handled :
      (kafka : Option (String → String → Option String)) (msg : String) (history : History)
      (payload : String ⊎ String)
      → (enqueue call kafka msg history payload).deeds ≢ handled ∷ []
  unfolding enqueue deliver
  never_handled kafka msg history (inr e) p = absurd cc
  never_handled (some send) msg history (inl payload) p =
      never_handled_sent payload msg history (send call.id payload) p
  never_handled none msg history (inl payload) p = absurd cc

  module _ (s : Surroundings F V) (g : Guardrail F) (advice : Advice)
      (handler : CallToolResult × Option String) where
    carried_out :
        (advised : List String × History)
        → ((carry_out call s g advice handler advised).deeds ≡ handled ∷ [])
          ↔ (is_large_operation call.name ≡ false)
    unfolding carry_out call_handler
    carried_out (ts, history) = elim (Bool-cases (is_large_operation call.name)) [
      | inl large ↦ (
        λ h. absurd (
            never_handled advice.kafka (suggestions_text ts) history call.payload
              (ground (arith, h, large))),
        λ h. absurd (cc (h, large)),
      )
      | inr small ↦ (λ h. small, λ h. ground (arith, small))
    ]

    decided :
        (history : History) (d : Decision)
        → ((after_decision call s g advice handler history d).deeds ≡ handled ∷ [])
          ↔ ((d ≡ goes_on) × (is_large_operation call.name ≡ false))
    unfolding after_decision
    decided history (warned reason) = (λ h. absurd cc, λ h. absurd (cc (h.0)))
    decided history goes_on =
        let both = carried_out (
          track_and_advise advice.md5 advice.describe advice.describe_ttl call.name call.fields
            history) in
        (λ h. (refl, both.0 h), λ h. both.1 h.1)

    -- A call whose handler may run: its arguments could be converted, it is confirmed or there is
    -- nothing to warn of, and its tool is none of the four that are queued.
    abbrev pub MayRun : Converted → Type 0
    MayRun (not_converted e) = ⊥
    MayRun (converted confirmed table) =
        ((confirmed ≡ true) ⊎ FindsNothing (analyze s g call.name call.decoded)) × IsSmall call.name

    converted_runs :
        (history : History) (input : Converted)
        → ((with_converted call s g advice handler history input).deeds ≡ handled ∷ [])
          ↔ MayRun input
    unfolding with_converted
    converted_runs history (not_converted e) = (λ h. absurd cc, λ h. absurd h)
    converted_runs history (converted confirmed table) =
        let both = decided history (decide confirmed (analyze s g call.name call.decoded)) in
        let may = goes_on_iff confirmed (analyze s g call.name call.decoded) in
        let small = IsSmall-iff call.name in
        (λ h. (may.0 (both.0 h).0, small.0 (both.0 h).1), λ h. both.1 (may.1 h.0, small.1 h.1))

    -- The handler of a tool runs within its call exactly when the call's arguments can be converted;
    -- it is confirmed, or its analysis ends without an error and at the level low or without a reason;
    -- and the tool is none of create_optimized_table, batch_put_items, batch_delete_items and
    -- ingest_document.
    pub handler_runs_iff :
        (history : History)
        → ((with_risk_analysis call s g advice handler history).deeds ≡ handled ∷ [])
          ↔ MayRun call.input
    unfolding with_risk_analysis
    handler_runs_iff history = converted_runs history call.input

    held :
        (history : History) (d : Decision)
        → d ≢ goes_on
        → ((after_decision call s g advice handler history d).deeds ≡ [])
          × ((after_decision call s g advice handler history d).result.is_error ≡ false)
          × ((after_decision call s g advice handler history d).history ≡ history)
    unfolding after_decision format_warning_result
    held history (warned reason) h = (refl, refl, refl)
    held history goes_on h = absurd (h refl)

    held_input :
        (history : History) (input : Converted) (table : Option String)
        → input ≡ converted false table
        → decide false (analyze s g call.name call.decoded) ≢ goes_on
        → ((with_converted call s g advice handler history input).deeds ≡ [])
          × ((with_converted call s g advice handler history input).result.is_error ≡ false)
          × ((with_converted call s g advice handler history input).history ≡ history)
    unfolding with_converted
    held_input history input table given h =
        rw given (held history (decide false (analyze s g call.name call.decoded)) h)

    -- A call of put_item, update_item, delete_item, batch_put_items, batch_delete_items, delete_table
    -- or update_table whose arguments are decoded, not confirmed, on a table that is read-only or
    -- protected, is neither made nor queued: it is answered with a warning, which is no error, and the
    -- advisor does not hear of it.
    pub closed_table_is_held :
        (history : History) (tool : GuardedTool) (a : Arguments F V) (table : Option String)
        → call.name ≡ name_of tool
        → call.decoded ≡ inl a
        → call.input ≡ converted false table
        → is_closed g a.table_name ≡ true
        → ((with_risk_analysis call s g advice handler history).deeds ≡ [])
          × ((with_risk_analysis call s g advice handler history).result.is_error ≡ false)
          × ((with_risk_analysis call s g advice handler history).history ≡ history)
    unfolding with_risk_analysis
    closed_table_is_held history tool a table named decoded given closed =
        held_input history call.input table given
          (rw (named, decoded) (closed_table_is_never_written s g tool a closed))
