-- ===== src/Risk/Tests.antt =====
-- The analyses of internal/risk/analyzer.go at concrete inputs.
use mcp_server_dynamodb_sage.Prelude.{inl, String, ◌≡◌, ◌≢◌, ◌↔◌, false, [], ◌∷◌, Assoc}
use mcp_server_dynamodb_sage.Engine.Values.{Item}
use mcp_server_dynamodb_sage.Risk.Level.{low, assessed, goes_on, decide}
use mcp_server_dynamodb_sage.Risk.Design.{Json, text, analyze_create_optimized_table}
use mcp_server_dynamodb_sage.Risk.Design.Sound.{IsSound, create_table_low_iff}
use mcp_server_dynamodb_sage.Risk.Writes.{marshalled, analyze_put_item}
use mcp_server_dynamodb_sage.Risk.Writes.Blocking.{IsHarmless, put_goes_on_iff}
use mathlib.Core.List.{List}
use mcp_server_dynamodb_sage.Risk.Samples.{guard, print, marshal, user}
use mcp_server_dynamodb_sage.Risk.BatchPut.{marshal_items, analyze_batch_put}
use mcp_server_dynamodb_sage.Risk.BatchPut.Harmless.{IsHarmlessBatch, batch_put_goes_on_iff}

put_goes_on_iff_example :
    (decide false (assessed (analyze_put_item print marshal guard "users" user)) ≡ goes_on) ↔ (
      (user ≢ [])
      × ((av : Item) × (marshal user ≡ marshalled av)
          × IsHarmless guard "users" print marshal user av))
put_goes_on_iff_example = put_goes_on_iff guard "users" print marshal user

abbrev key : String → String → Assoc Json
key name type = ("attributeName", text name) ∷ ("keyType", text type) ∷ []

create_table_low_iff_example :
    ((analyze_create_optimized_table
        (λ n. "n")
        "users"
        (key "id" "HASH" ∷ key "at" "RANGE" ∷ [])
        []
        []).level
      ≡ low)
    ↔ IsSound (key "id" "HASH" ∷ key "at" "RANGE" ∷ []) [] []
create_table_low_iff_example =
    create_table_low_iff (λ n. "n") "users" (key "id" "HASH" ∷ key "at" "RANGE" ∷ []) [] []

batch_put_goes_on_iff_example :
    (decide false (analyze_batch_put print (λ n. "n") guard "users" marshal (user ∷ [])) ≡ goes_on)
    ↔ ((user ∷ [] ≢ [])
        × ((avs : List Item) × (marshal_items marshal (user ∷ []) ≡ inl avs)
            × IsHarmlessBatch print (λ n. "n") guard "users" (user ∷ []) avs))
batch_put_goes_on_iff_example =
    batch_put_goes_on_iff print (λ n. "n") guard "users" marshal (user ∷ [])
