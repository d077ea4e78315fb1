-- ===== src/Engine/Guardrail/Tables.antt =====
-- The checks of a table's name and of a field's name in internal/engine/guardrails.go.
use mcp_server_dynamodb_sage.Prelude.{
  ℕ, String, ◌≡◌, refl, Bool, true, false, ◌||◌, ◌&&◌, Option, none, some, List, [], ◌∷◌, Assoc,
  lookup, insert, lookup-insert, any, arith, str_eq, str_eq_iff, Option-cases, inl, inr, equal_fold,
  codes_eq, to_lower,
}
use mcp_server_dynamodb_sage.Engine.Config.{TableConfig, AppConfig}
use mcp_server_dynamodb_sage.Engine.Guardrail.{
  Guardrail, protect, find_table, new_guardrail, get_table_config, validate_read_only_table,
  validate_protected_table, is_sensitive_field, is_pii_field, is_protected_field, folds_to_any,
}

abbrev is_some : Option Bool → Bool
is_some none = false
is_some (some _) = true

protect_lem :
    (names : List String) (table : Assoc Bool) (name : String)
    → is_some (lookup name (protect names table))
      ≡ (any (λ t. str_eq t name) names || is_some (lookup name table))
unfolding protect
protect_lem [] table name = refl
protect_lem (t ∷ names) table name =
    ground (arith, protect_lem names (insert t true table) name, lookup-insert t name true table)

-- No two tables of the configuration have the same name.
abbrev pub IsDistinct : List TableConfig → Type 0
IsDistinct [] = Unit
IsDistinct (t ∷ ts) = (any (λ u. str_eq u.name t.name) ts ≡ false) × IsDistinct ts

abbrev pub read_only_in : List TableConfig → String → Bool
read_only_in ts name = any (λ t. str_eq t.name name && t.read_only) ts

abbrev is_read_only : Option TableConfig → Bool
is_read_only none = false
is_read_only (some t) = t.read_only

absent-read_only_in :
    (ts : List TableConfig) (name : String)
    → any (λ u. str_eq u.name name) ts ≡ false
    → read_only_in ts name ≡ false
absent-read_only_in [] name h = refl
absent-read_only_in (t ∷ ts) name h = ground (arith, absent-read_only_in ts name)

find_table_lem :
    (ts : List TableConfig) (name : String)
    → IsDistinct ts
    → is_read_only (find_table ts name) ≡ read_only_in ts name
unfolding find_table
find_table_lem [] name d = refl
find_table_lem (t ∷ ts) name d =
    ground (arith, find_table_lem ts name d.1, absent-read_only_in ts name, str_eq_iff t.name name)

-- Where the configuration names each table once, a guardrail made from it blocks a table exactly
-- when the table is on the list of protected tables, and as read-only exactly when some entry of
-- that name is marked so.
pub table_checks :
    {F : Type 0} (config : AppConfig F) (name : String)
    → IsDistinct config.tables
    → (validate_protected_table (new_guardrail config) name
        ≡ any (λ t. str_eq t name) config.protected_tables)
      × (validate_read_only_table (new_guardrail config) name ≡ read_only_in config.tables name)
unfolding validate_protected_table validate_read_only_table new_guardrail get_table_config
table_checks config name d = (
  ground (arith, protect_lem config.protected_tables [] name),
  ground (arith, find_table_lem config.tables name d),
)

codes_eq→eq : (xs ys : List ℕ) → codes_eq xs ys ≡ true → xs ≡ ys
codes_eq→eq [] [] h = refl
codes_eq→eq [] (y ∷ ys) h = cc
codes_eq→eq (x ∷ xs) [] h = cc
codes_eq→eq (x ∷ xs) (y ∷ ys) h = ground (arith, codes_eq→eq xs ys)

folds_to_any_cong :
    (j k : String) (names : List String)
    → equal_fold j k ≡ true
    → folds_to_any j names ≡ folds_to_any k names
unfolding folds_to_any equal_fold
folds_to_any_cong j k [] h = refl
folds_to_any_cong j k (x ∷ names) h =
    ground (arith, codes_eq→eq (to_lower j) (to_lower k), folds_to_any_cong j k names)

-- Two names of a field that differ in case alone are both protected in a table or both not.
is_protected_field_fold :
    {F : Type 0} (g : Guardrail F) (name j k : String)
    → equal_fold j k ≡ true
    → is_protected_field g name j ≡ is_protected_field g name k
unfolding is_protected_field is_sensitive_field is_pii_field
is_protected_field_fold g name j k h = elim (Option-cases (get_table_config g name)) [
  | inl e ↦ ground (arith, folds_to_any_cong j k g.config.sensitive_fields)
  | inr (t, e) ↦
      ground
        (arith, folds_to_any_cong j k g.config.sensitive_fields, folds_to_any_cong j k t.pii_fields)
]
