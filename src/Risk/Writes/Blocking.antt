-- ===== src/Risk/Writes/Blocking.antt =====
-- Which calls the analyses of internal/risk/analyzer.go and checkRisk of server/tools.go stop.
use mathlib.Core.Path.{subst}
use mcp_server_dynamodb_sage.Prelude.{
  ℕ, ◌≤◌, ◌⊎◌, inl, inr, String, ◌≡◌, ◌≢◌, ◌↔◌, refl, false, List, [], ◌∷◌, Assoc, str_eq,
  str_append, append_some, arith, ltb, Bool-cases,
}
use mcp_server_dynamodb_sage.Engine.Values.{Item, estimated_size}
use mcp_server_dynamodb_sage.Engine.Guardrail.{
  Guardrail, max_individual_size, validate_read_only_table, validate_protected_table,
  validate_schema, get_sensitive_fields, check_table_pii_fields,
}
use mcp_server_dynamodb_sage.Risk.Level.{
  medium, assess, check_table_protection, assessed, warned, goes_on, decide,
}
use mcp_server_dynamodb_sage.Risk.Writes.{
  Marshalled, marshalled, not_marshalled, Printer, if_any, schema_reason, pii_reason, size_reasons,
  format_sensitive_fields, put_item_reasons, analyze_put_item,
}
use mcp_server_dynamodb_sage.Risk.Level.Reasons.{
  IsText, AreTexts, AreTexts-append, goes_on_iff_none, decide_medium, guarded-AreTexts,
  guarded_nothing, both_nothing,
}

literals :
    IsText "readonly"
    × IsText "protectedTable"
    × IsText "Schema validation failed: "
    × IsText "Item contains sensitive fields: "
    × IsText "Item contains table-specific PII fields: "
    × IsText "Item size ("
    × IsText "Item to put into table "
    × IsText "Failed to marshal item: "
unfolding str_eq
literals = (refl, refl, refl, refl, refl, refl, refl, refl)

pub if_any-AreTexts :
    {A : Type 0} (text : List A → String) (fs : List A)
    → ((gs : List A) → IsText (text gs))
    → AreTexts (if_any text fs)
if_any-AreTexts text [] h = record { each = tt }
if_any-AreTexts text (f ∷ fs) h = record { each = (h (f ∷ fs), tt) }

pub if_any_nothing :
    {A : Type 0} (text : List A → String) (fs : List A) → (if_any text fs ≡ []) ↔ (fs ≡ [])
if_any_nothing text [] = (λ h. refl, λ h. refl)
if_any_nothing text (f ∷ fs) = (λ h. absurd cc, λ h. absurd cc)

Marshalled-cases :
    (m : Marshalled)
    → ((av : Item) × (m ≡ marshalled av)) ⊎ ((err : String) × (m ≡ not_marshalled err))
Marshalled-cases (marshalled av) = inl (av, refl)
Marshalled-cases (not_marshalled err) = inr (err, refl)

pub size_nothing :
    (print : Printer) (n : ℕ) → (size_reasons print n ≡ []) ↔ (n ≤ max_individual_size)
size_nothing print n = elim (Bool-cases (ltb max_individual_size n)) [
  | inl e ↦ (λ h. ground (arith, h, e), λ h. ground (arith, h, e))
  | inr e ↦ (λ h. ground (arith, h, e), λ h. ground (arith, h, e))
]

module _ {F : Type 0} (g : Guardrail F) (table : String) where
  pub protection-AreTexts : AreTexts (check_table_protection g table)
  unfolding check_table_protection
  protection-AreTexts =
      AreTexts-append _ _ (guarded-AreTexts _ _ (append_some "readonly" _ literals.0))
        (guarded-AreTexts _ _ (append_some "protectedTable" _ literals.1))

  pub protection_nothing :
      (check_table_protection g table ≡ [])
      ↔ ((validate_read_only_table g table ≡ false) × (validate_protected_table g table ≡ false))
  unfolding check_table_protection
  protection_nothing =
      both_nothing _ _ (guarded_nothing (validate_read_only_table g table) _)
        (guarded_nothing (validate_protected_table g table) _)

  module _ {V : Type 0} (print : Printer) (marshal : Assoc V → Marshalled) where
    -- The conditions under which an item may be put without a confirmation.
    pub record IsHarmless (item : Assoc V) (av : Item) : Type 0 where
      pub writable :
          (validate_read_only_table g table ≡ false) × (validate_protected_table g table ≡ false)
      pub conforms : validate_schema g table av ≡ []
      pub nothing_sensitive : get_sensitive_fields g item ≡ []
      pub nothing_personal : check_table_pii_fields g table item ≡ []
      pub small : estimated_size av ≤ max_individual_size

    reasons-AreTexts :
        (item : Assoc V) (av : Item) → AreTexts (put_item_reasons print marshal g table item av)
    unfolding put_item_reasons check_table_protection format_sensitive_fields
    reasons-AreTexts item av =
        AreTexts-append _ _
          (AreTexts-append _ _
            (AreTexts-append _ _
              (AreTexts-append _ _ protection-AreTexts (
                if_any-AreTexts (schema_reason print) (validate_schema g table av)
                  (λ gs. append_some "Schema validation failed: " _ literals.2)))
              (if_any-AreTexts (λ fs. format_sensitive_fields fs g.config.enforce_password_hashing)
                (get_sensitive_fields g item)
                (λ gs. append_some "Item contains sensitive fields: " _ literals.3)))
            (if_any-AreTexts pii_reason (check_table_pii_fields g table item)
              (λ gs. append_some "Item contains table-specific PII fields: " _ literals.4)))
          (guarded-AreTexts _ _ (append_some "Item size (" _ literals.5))

    reasons_nothing :
        (item : Assoc V) (av : Item)
        → (put_item_reasons print marshal g table item av ≡ []) ↔ IsHarmless item av
    unfolding put_item_reasons check_table_protection
    reasons_nothing item av =
        let all =
          both_nothing _ _
            (both_nothing _ _
              (both_nothing _ _
                (both_nothing _ _ protection_nothing
                  (if_any_nothing (schema_reason print) (validate_schema g table av)))
                (if_any_nothing (λ fs. format_sensitive_fields fs g.config.enforce_password_hashing)
                  (get_sensitive_fields g item)))
              (if_any_nothing pii_reason (check_table_pii_fields g table item)))
            (size_nothing print (estimated_size av)) in
        (
          λ h.
              let ((((p, c), s), i), n) = all.0 h in
              record {
                writable = p;
                conforms = c;
                nothing_sensitive = s;
                nothing_personal = i;
                small = n;
              },
          λ h.
              all.1
                ((((h.writable, h.conforms), h.nothing_sensitive), h.nothing_personal), h.small),
        )

    put_lem :
        (f : String × V) (item : Assoc V)
        → ((av : Item)
            → marshal (f ∷ item) ≡ marshalled av
            → analyze_put_item print marshal g table (f ∷ item)
              ≡ assess table (put_item_reasons print marshal g table (f ∷ item) av))
          × ((err : String)
              → marshal (f ∷ item) ≡ not_marshalled err
              → analyze_put_item print marshal g table (f ∷ item) ≡ record {
                table_name = "";
                level = medium;
                reason = str_append "Failed to marshal item: " err;
              })
    unfolding analyze_put_item
    put_lem f item = (λ av e. ground (arith, e), λ err e. ground (arith, e))

    put_marshalled :
        (f : String × V) (item : Assoc V) (av : Item)
        → marshal (f ∷ item) ≡ marshalled av
        → (decide false (assessed (analyze_put_item print marshal g table (f ∷ item))) ≡ goes_on)
          ↔ IsHarmless (f ∷ item) av
    put_marshalled f item av e =
        let reasons : List String = put_item_reasons print marshal g table (f ∷ item) av in
        let none_left = goes_on_iff_none table reasons (reasons-AreTexts (f ∷ item) av) in
        let harmless = reasons_nothing (f ∷ item) av in
        rw ((put_lem f item).0 av e)
          (λ h. harmless.0 (none_left.0 h), λ h. none_left.1 (harmless.1 h))

    put_refused :
        (f : String × V) (item : Assoc V) (err : String)
        → marshal (f ∷ item) ≡ not_marshalled err
        → decide false (assessed (analyze_put_item print marshal g table (f ∷ item)))
          ≡ warned (str_append "detected risk: " (str_append "Failed to marshal item: " err))
    put_refused f item err e =
        rw ((put_lem f item).1 err e)
          (decide_medium "" _ (append_some "Failed to marshal item: " err literals.7))

    same_item :
        (item : Assoc V) (x y : Item)
        → marshal item ≡ marshalled x
        → marshal item ≡ marshalled y
        → x ≡ y
    same_item item x y p q = cc

    -- A put that nobody has confirmed goes on exactly when the item is not empty, can be
    -- marshalled, and is harmless: the table is neither read-only nor protected, the item conforms
    -- to the table's schema, has no sensitive field and no personal one of the table, and is within
    -- the limit of one item. Otherwise the caller is warned.
    pub put_goes_on_iff :
        (item : Assoc V)
        → (decide false (assessed (analyze_put_item print marshal g table item)) ≡ goes_on)
          ↔ ((item ≢ []) × ((av : Item) × (marshal item ≡ marshalled av) × IsHarmless item av))
    unfolding analyze_put_item
    put_goes_on_iff [] = (
      λ h. absurd (
          cc (
            h,
            decide_medium "" _ (
                append_some "Item to put into table " (str_append table " cannot be empty")
                  literals.6),
          )),
      λ h. absurd (h.0 refl),
    )
    put_goes_on_iff (f ∷ item) = elim (Marshalled-cases (marshal (f ∷ item))) [
      | inl (av, e) ↦ (
        λ h. (λ p. absurd cc, (av, e, (put_marshalled f item av e).0 h)),
        λ h.
            (put_marshalled f item av e).1
              (subst (IsHarmless (f ∷ item)) (same_item (f ∷ item) h.1.0 av h.1.1 e) h.1.2),
      )
      | inr (err, e) ↦ (λ h. absurd (cc (h, put_refused f item err e)), λ h. absurd (cc (e, h.1.1)))
    ]
