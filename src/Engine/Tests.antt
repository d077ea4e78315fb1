-- ===== src/Engine/Tests.antt =====
-- The configuration and the guardrails of internal/engine at concrete inputs.
use mcp_server_dynamodb_sage.Prelude.{
  ℕ, ◌≡◌, ◌↔◌, ◌⊎◌, refl, true, false, List, [], ◌∷◌, arith, str_eq, equal_fold, String, any, Assoc,
  map,
}
use mcp_server_dynamodb_sage.Prelude.Int.{pos, negsuc, ◌≤ℤ◌}
use mcp_server_dynamodb_sage.Prelude.Decimals.{decimals}
use mcp_server_dynamodb_sage.Engine.Config.{AppConfig, decoded, load_config, fill_defaults}
use mcp_server_dynamodb_sage.Engine.Config.Limits.{IsUsable, load_config-IsUsable}
use mcp_server_dynamodb_sage.Engine.Values.{Item, no_entries, entry, member_s}
use mcp_server_dynamodb_sage.Engine.Guardrail.{
  Guardrail, new_guardrail, enforce_limit, lowered_to, no_warning, validate_protected_table,
  validate_read_only_table, validate_schema, schema_errors, match_type, scrub_from, scrub_fields,
  is_sensitive_field, is_pii_field, folds_to_any, is_protected_field, get_table_config, scrub_items,
}
use mcp_server_dynamodb_sage.Engine.Guardrail.Limit.{top, enforce_limit_bounds}
use mcp_server_dynamodb_sage.Engine.Guardrail.Tables.{read_only_in, table_checks}
use mcp_server_dynamodb_sage.Engine.Guardrail.Schema.{Accepts, validate_schema_iff}
use mcp_server_dynamodb_sage.Engine.Guardrail.Scrub.{scrubbed, found, scrub_items_lem}

-- A file that sets little.
abbrev sparse : AppConfig (ℕ × ℕ)
sparse = record {
  global_limits = record { max_limit = pos 50; default_limit = pos 80 };
  sensitive_fields = "password" ∷ [];
  enforce_password_hashing = true;
  protected_tables = "ledger" ∷ [];
  tables =
      record {
        name = "users";
        pii_fields = "email" ∷ [];
        read_only = true;
        enforce_schema = true;
        columns = ("age", "N") ∷ [];
      }
      ∷ [];
  risk_thresholds = record {
    table_size_mb = (0, 0);
    scan_cost_usd = (0, 0);
    batch_delete_count = pos 0;
    batch_get_count = negsuc 4;
    batch_put_count = pos 25;
    max_throughput_increase = pos 0;
    update_expression_depth = pos 0;
  };
  risk_level = pos 0;
  protected_tags = [];
  rag = record {
    enabled = false;
    embedding = record { provider = ""; model = ""; dimensions = pos 0 };
    chunking = record { max_tokens = pos 0; overlap = pos 0 };
    vector_db = record { provider = ""; host = ""; port = pos 0 };
    retrieval = record { top_k = pos 0; score_threshold = (0, 0); final_k = pos 0 };
  };
}

load_config-IsUsable_example : IsUsable (fill_defaults sparse)
unfolding load_config
load_config-IsUsable_example = load_config-IsUsable (decoded sparse) refl

abbrev guard : Guardrail (ℕ × ℕ)
guard =
    new_guardrail
      (record sparse { global_limits = record { max_limit = pos 50; default_limit = pos 20 } })

lowered : enforce_limit guard (pos 70) ≡ (pos 50, lowered_to (pos 50) (pos 50))
unfolding enforce_limit new_guardrail
lowered = refl

enforce_limit_bounds_example :
    (pos 1 ≤ℤ (enforce_limit guard (pos 70)).0)
    × ((enforce_limit guard (pos 70)).0 ≤ℤ top guard)
    × (((pos 1 ≤ℤ pos 70)
          × (pos 70 ≤ℤ top guard)
          × (enforce_limit guard (pos 70) ≡ (pos 70, no_warning)))
        ⊎ ((pos 70 ≤ℤ pos 0)
            × (enforce_limit guard (pos 70)
                ≡ (guard.config.global_limits.default_limit, no_warning)))
        ⊎ (¬ (pos 70 ≤ℤ top guard)
            × (enforce_limit guard (pos 70) ≡ (top guard, lowered_to (top guard) (top guard)))))
unfolding new_guardrail
enforce_limit_bounds_example = enforce_limit_bounds guard (pos 70) (omega arith)

table_checks_example :
    (validate_protected_table (new_guardrail sparse) "ledger"
      ≡ any (λ t. str_eq t "ledger") sparse.protected_tables)
    × (validate_read_only_table (new_guardrail sparse) "ledger"
        ≡ read_only_in sparse.tables "ledger")
table_checks_example = table_checks sparse "ledger" (refl, tt)

abbrev wrong_age : Item
wrong_age = entry "age" (member_s "7") (entry "name" (member_s "x") no_entries)

schema_refuses : validate_schema guard "users" wrong_age ≡ ("age", "N") ∷ []
unfolding validate_schema new_guardrail get_table_config str_eq schema_errors match_type
schema_refuses = refl

validate_schema_iff_example :
    (validate_schema guard "users" wrong_age ≡ [])
    ↔ Accepts (get_table_config guard "users") wrong_age
validate_schema_iff_example = validate_schema_iff guard "users" wrong_age

abbrev rows : List (Assoc String)
rows = (("EMAIL", "a@b.c") ∷ ("city", "Rome") ∷ []) ∷ []

scrub_hides_email :
    scrub_items (λ t. t) guard "users" rows
    ≡ ((("EMAIL", "EMAIL:[REDACTED]") ∷ ("city", "Rome") ∷ []) ∷ [], true)
unfolding scrub_items is_protected_field new_guardrail get_table_config str_eq equal_fold scrub_from
    scrub_fields is_sensitive_field is_pii_field folds_to_any
scrub_hides_email = refl

scrub_items_lem_example : scrub_items (λ t. t) guard "users" rows ≡ (
  map (map (scrubbed (λ t. t) guard "users")) rows,
  found (λ (t : String). t) guard "users" rows,
)
scrub_items_lem_example = scrub_items_lem (λ t. t) guard "users" rows
