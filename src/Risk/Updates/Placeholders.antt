-- ===== src/Risk/Updates/Placeholders.antt =====
-- The names that the analysis of an update looks at (internal/risk/analyzer.go): DynamoDB wants each
-- name of an expression's values to begin with a colon.
use Prim.Native.Char.{code}
use mathlib.Core.List.{append-nil}
use mcp_server_dynamodb_sage.Prelude.{
  ℕ, ◌⊎◌, String, ◌≡◌, ◌≢◌, refl, ap, ◌∙◌, inl, inr, Bool-cases, Option-cases, false, Option, none,
  some, List, [], ◌∷◌, ◌++◌, Assoc, All, map, lookup, str_eq, str_eq_iff, equal_fold, arith,
}
use mcp_server_dynamodb_sage.Engine.Config.{TableConfig}
use mcp_server_dynamodb_sage.Engine.Values.{Item, no_entries, entry, estimated_size}
use mcp_server_dynamodb_sage.Engine.Guardrail.{
  Guardrail, folds_to_any, get_table_config, schema_errors, validate_schema, is_sensitive_field,
  is_pii_field, get_sensitive_fields, check_table_pii_fields,
}
use mcp_server_dynamodb_sage.Risk.Level.{check_table_protection}
use mcp_server_dynamodb_sage.Risk.Writes.{Marshalled, Printer}
use mcp_server_dynamodb_sage.Risk.Updates.{
  check_expression_complexity, if_said, payload_reasons, update_reasons,
}

abbrev pub first_code : String → ℕ
first_code String.[] = 0
first_code (String.◌∷◌ c s) = code c

abbrev pub IsPlaceholder : String → Type 0
IsPlaceholder k = first_code k ≡ b':'

abbrev pub IsName : String → Type 0
IsName n = first_code n ≢ b':'

-- The names of the table's personal fields and of its columns.
abbrev pub pii_names : Option TableConfig → List String
pii_names none = []
pii_names (some t) = t.pii_fields

abbrev pub column_names : Option TableConfig → List String
column_names none = []
column_names (some t) = map (λ c. c.0) t.columns

abbrev pub names : Item → List String
names no_entries = []
names (entry k v rest) = k ∷ names rest

different : (k n : String) → IsPlaceholder k → IsName n → equal_fold k n ≡ false
unfolding equal_fold
different String.[] n h m = absurd (omega (arith, h))
different (String.◌∷◌ c s) String.[] h m = refl
different (String.◌∷◌ c s) (String.◌∷◌ d t) h m = ground (arith, h, m)

nothing_folds :
    (k : String) (ns : List String) → IsPlaceholder k → All IsName ns → folds_to_any k ns ≡ false
unfolding folds_to_any
nothing_folds k [] h m = refl
nothing_folds k (n ∷ ns) h m = ground (arith, different k n h m.0, nothing_folds k ns h m.1)

no_column :
    (k : String) (columns : Assoc String)
    → IsPlaceholder k
    → All IsName (map (λ c. c.0) columns)
    → lookup k columns ≡ none
no_column k [] h m = refl
no_column k ((c, t) ∷ columns) h m = elim (Bool-cases (str_eq c k)) [
  | inl same ↦ absurd (m.0 (ap first_code ((str_eq_iff c k).0 same) ∙ h))
  | inr other ↦ ground (arith, other, no_column k columns h m.1)
]

no_schema_errors :
    (columns : Assoc String) (av : Item)
    → All IsPlaceholder (names av)
    → All IsName (map (λ c. c.0) columns)
    → schema_errors columns av ≡ []
unfolding schema_errors
no_schema_errors columns no_entries h m = refl
no_schema_errors columns (entry k v rest) h m =
    ground (arith, no_column k columns h.0 m, no_schema_errors columns rest h.1 m)

module _ {F : Type 0} (g : Guardrail F) (table : String) where
  not_pii :
      (k : String)
      → IsPlaceholder k
      → All IsName (pii_names (get_table_config g table))
      → is_pii_field g table k ≡ false
  unfolding is_pii_field
  not_pii k h m = elim (Option-cases (get_table_config g table)) [
    | inl e ↦ ground (arith, e)
    | inr (t, e) ↦ ground (arith, e, nothing_folds k t.pii_fields h (rw e at m))
  ]

  conforming :
      (av : Item)
      → All IsPlaceholder (names av)
      → All IsName (column_names (get_table_config g table))
      → validate_schema g table av ≡ []
  unfolding validate_schema
  conforming av h m = elim (Option-cases (get_table_config g table)) [
    | inl e ↦ ground (arith, e)
    | inr (t, e) ↦ ground (arith, e, no_schema_errors t.columns av h (rw e at m))
  ]

module _ {F V : Type 0} (g : Guardrail F) (table : String) where
  not_sensitive :
      (values : Assoc V)
      → All (λ e. IsPlaceholder e.0) values
      → All IsName g.config.sensitive_fields
      → get_sensitive_fields g values ≡ []
  unfolding get_sensitive_fields is_sensitive_field
  not_sensitive [] h m = refl
  not_sensitive ((k, v) ∷ values) h m =
      ground (arith, nothing_folds k g.config.sensitive_fields h.0 m, not_sensitive values h.1 m)

  not_personal :
      (values : Assoc V)
      → All (λ e. IsPlaceholder e.0) values
      → All IsName (pii_names (get_table_config g table))
      → check_table_pii_fields g table values ≡ []
  unfolding check_table_pii_fields
  not_personal [] h m = refl
  not_personal ((k, v) ∷ values) h m =
      ground (arith, not_pii g table k h.0 m, not_personal values h.1 m)

  -- Where no configured name begins with a colon, and the values' names do, as DynamoDB wants of the
  -- values of an expression, the checks of the values against the schema, the personal fields and the
  -- sensitive fields never find anything: the reasons against an update are those of the table, the
  -- item as it is, the sizes and the expression alone, whichever fields it writes.
  pub placeholders_hide_fields :
      (print : Printer) (marshal : Assoc V → Marshalled) (unmarshal : Item → Assoc V ⊎ String)
      (values : Assoc V) (av : Item) (expression current updated : String)
      → All (λ e. IsPlaceholder e.0) values
      → All IsPlaceholder (names av)
      → All IsName g.config.sensitive_fields
      → All IsName (pii_names (get_table_config g table))
      → All IsName (column_names (get_table_config g table))
      → update_reasons print g table marshal unmarshal values av expression current updated
        ≡ check_table_protection g table
          ++ if_said print g table marshal unmarshal current
          ++ payload_reasons print g table marshal unmarshal (estimated_size av)
          ++ if_said print g table marshal unmarshal updated
          ++ if_said print g table marshal unmarshal
              (check_expression_complexity print g expression)
  unfolding update_reasons
  placeholders_hide_fields print marshal unmarshal values av expression current updated placed named
        sensitive personal columns =
      rw
        (
          conforming g table av named columns,
          not_personal values placed personal,
          not_sensitive values placed sensitive,
          append-nil (check_table_protection g table),
          append-nil (check_table_protection g table),
          append-nil (check_table_protection g table),
        )
        refl
