-- ===== src/Server/Dashboard/Shown.antt =====
-- What the dashboard of server/dashboard.go shows of a table's items, and of how many tables.
use mcp_server_dynamodb_sage.Prelude.{
  ℕ, suc, ◌≤◌, ◌≡◌, refl, ap, ◌∙◌, ◌⊎◌, inl, inr, String, Option, none, some, List, [], ◌∷◌, Assoc,
  length, take, length-take, min, arith,
}
use mcp_server_dynamodb_sage.Prelude.Int.{ℤ, pos_part}
use mcp_server_dynamodb_sage.Prelude.Numerals.{atoi}
use mcp_server_dynamodb_sage.Engine.Values.{Item}
use mcp_server_dynamodb_sage.Engine.Guardrail.{Guardrail}
use mcp_server_dynamodb_sage.Engine.Guardrail.Scrub.{scrub_items_lem}
use mcp_server_dynamodb_sage.Handlers.Effects.{Reply, error, reply}
use mcp_server_dynamodb_sage.Handlers.Reads.Secrecy.{AreAlikeItems, scrubbed_items_alike}
use mcp_server_dynamodb_sage.Server.Dashboard.{
  Response, TableInfo, max_tables_to_display, describe_tables, list_tables_info, asked_limit,
  items_limit, items_table, shown_items, scanned, get_table_items,
}

asked_limit_pos : (o : Option ℤ) → 1 ≤ pos_part (asked_limit o)
asked_limit_pos none = omega arith
asked_limit_pos (some n) = ground arith

-- Whatever the query says, the dashboard asks for at least one item and for no more than a hundred.
pub items_limit_bounds : (s : String) → (1 ≤ items_limit s) × (items_limit s ≤ 100)
unfolding items_limit
items_limit_bounds s = (omega (arith, asked_limit_pos (atoi s)), omega arith)

module _ {F V : Type 0} (g : Guardrail F) (of_text : String → V)
    (unmarshal : List Item → List (Assoc V) ⊎ String) where
  shown_alike :
      (name : String) (xs ys : List (Assoc V))
      → AreAlikeItems g name xs ys
      → shown_items g of_text unmarshal name (inl xs)
        ≡ shown_items g of_text unmarshal name (inl ys)
  shown_alike name xs ys h =
      rw (scrub_items_lem of_text g name xs, scrub_items_lem of_text g name ys)
        (ap (λ is. Response.json is) (scrubbed_items_alike of_text g name xs ys h))

  scanned_alike :
      (name : String) (a b : Reply (List Item)) (is js : List Item) (xs ys : List (Assoc V))
      → a ≡ reply is
      → b ≡ reply js
      → unmarshal is ≡ inl xs
      → unmarshal js ≡ inl ys
      → AreAlikeItems g name xs ys
      → scanned g of_text unmarshal name a ≡ scanned g of_text unmarshal name b
  scanned_alike name a b is js xs ys p q x y h = rw (p, q, x, y) (shown_alike name xs ys h)

  -- The dashboard does not show what the guardrail protects: where DynamoDB answers, for the table of
  -- the path and the limit asked for, with items that are the same but for protected fields, the
  -- response is the same.
  pub table_items_are_secret :
      (path limit : String) (scan other : String → ℕ → Reply (List Item)) (is js : List Item)
      (xs ys : List (Assoc V))
      → scan (items_table path) (items_limit limit) ≡ reply is
      → other (items_table path) (items_limit limit) ≡ reply js
      → unmarshal is ≡ inl xs
      → unmarshal js ≡ inl ys
      → AreAlikeItems g (items_table path) xs ys
      → get_table_items g of_text unmarshal path limit scan
        ≡ get_table_items g of_text unmarshal path limit other
  unfolding get_table_items
  table_items_are_secret path limit scan other is js xs ys p q x y h =
      rw
        (scanned_alike (items_table path) (scan (items_table path) (items_limit limit))
          (other (items_table path) (items_limit limit)) is js xs ys p q x y h)
        refl

describe_tables_count :
    (describe : String → Reply TableInfo) (names : List String) (infos : List TableInfo)
    → describe_tables describe names ≡ inl infos
    → length infos ≡ length names
unfolding describe_tables
describe_tables_count describe [] infos h = ground (arith, h)
describe_tables_count describe (name ∷ names) infos h =
    next (describe name) (describe_tables describe names) refl refl
      (λ others q. describe_tables_count describe names others q)
  where
    next :
        (r : Reply TableInfo) (rest : List TableInfo ⊎ String)
        → describe name ≡ r
        → describe_tables describe names ≡ rest
        → ((others : List TableInfo)
            → describe_tables describe names ≡ inl others
            → length others ≡ length names)
        → length infos ≡ suc (length names)
    next (error e) rest p q ih = absurd (ground (arith, h, p))
    next (reply info) (inr e) p q ih = absurd (ground (arith, h, p, q))
    next (reply info) (inl others) p q ih = ground (arith, h, p, q, ih others q)

-- The list of tables, where every one can be described, has a hundred of them at most, and all if
-- there are no more.
list_tables_info-length :
    (names : List String) (describe : String → Reply TableInfo) (infos : List TableInfo)
    → list_tables_info (reply names) describe ≡ inl infos
    → length infos ≡ min 100 (length names)
unfolding list_tables_info
list_tables_info-length names describe infos h =
    describe_tables_count describe (take max_tables_to_display names) infos h
    ∙ length-take max_tables_to_display names
