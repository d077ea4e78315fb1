-- ===== src/Server/Dashboard/Tests.antt =====
-- The dashboard of server/dashboard.go at concrete paths and queries.
use mcp_server_dynamodb_sage.Prelude.{
  ℕ, ◌⊎◌, inl, inr, String, ◌≡◌, refl, List, [], ◌∷◌, Assoc, has_suffix, cut_prefix, trim_suffix,
}
use mcp_server_dynamodb_sage.Engine.Values.{Item, no_entries, entry, member_s}
use mcp_server_dynamodb_sage.Engine.Guardrail.{is_protected_field, is_sensitive_field, folds_to_any}
use mcp_server_dynamodb_sage.Prelude.{equal_fold}
use mcp_server_dynamodb_sage.Risk.Samples.{guard}
use mcp_server_dynamodb_sage.Handlers.Effects.{Reply, reply}
use mcp_server_dynamodb_sage.Prelude.Numerals.{atoi}
use mcp_server_dynamodb_sage.Server.Dashboard.{items_limit, items_table, get_table_items}
use mcp_server_dynamodb_sage.Server.Dashboard.Shown.{table_items_are_secret}

limit_of_seven : items_limit "7" ≡ 7
unfolding items_limit atoi
limit_of_seven = refl

limit_of_many : items_limit "1000" ≡ 100
unfolding items_limit atoi
limit_of_many = refl

limit_of_nothing : items_limit "seven" ≡ 20
unfolding items_limit atoi
limit_of_nothing = refl

table_of_path : items_table "/api/tables/users/items" ≡ "users"
unfolding cut_prefix trim_suffix has_suffix
table_of_path = refl

abbrev one_item : String → Item
one_item secret = entry "password" (member_s secret) no_entries

abbrev fields_of : List Item → List (Assoc String) ⊎ String
fields_of [] = inl []
fields_of (entry k (member_s v) rest ∷ items) = inl (((k, v) ∷ []) ∷ [])
fields_of (item ∷ items) = inr "no text"

abbrev answer : String → String → ℕ → Reply (List Item)
answer secret table limit = reply (one_item secret ∷ [])

table_items_are_secret_example :
    get_table_items guard (λ s. s) fields_of "/api/tables/users/items" "7" (answer "rose")
    ≡ get_table_items guard (λ s. s) fields_of "/api/tables/users/items" "7" (answer "lily")
unfolding is_protected_field is_sensitive_field folds_to_any equal_fold
table_items_are_secret_example =
    table_items_are_secret guard (λ s. s) fields_of "/api/tables/users/items" "7" (answer "rose")
      (answer "lily") (one_item "rose" ∷ []) (one_item "lily" ∷ [])
      ((("password", "rose") ∷ []) ∷ []) ((("password", "lily") ∷ []) ∷ []) refl refl refl refl
      ((refl, inl refl, tt), tt)
