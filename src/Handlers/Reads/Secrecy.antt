-- ===== src/Handlers/Reads/Secrecy.antt =====
-- That queries and scans (server/handlers.go) do not show what the guardrail protects.
use mcp_server_dynamodb_sage.Prelude.{
  String, ◌≡◌, refl, ap, ◌⊎◌, inl, inr, Bool, true, false, Option, str_eq, List, [], ◌∷◌, Assoc,
  map, length, arith, if◌then◌else◌,
}
use mcp_server_dynamodb_sage.Prelude.Int.{ℤ}
use mcp_server_dynamodb_sage.Engine.Guardrail.{
  Guardrail, Warning, is_protected_field, enforce_limit,
}
use mcp_server_dynamodb_sage.Engine.Values.{Item}
use mcp_server_dynamodb_sage.Engine.Guardrail.Scrub.{scrubbed, scrub_items_lem}
use mcp_server_dynamodb_sage.Handlers.Effects.{
  Reply, error, reply, ReadInput, Trace, M, Step, returned, goes, resume, reads, audit,
  success_result,
}
use mcp_server_dynamodb_sage.Handlers.Passwords.{Values}
use mcp_server_dynamodb_sage.Handlers.Reads.{
  Page, page_text, unmarshalled, after_page, read_page, start_key_of, values_of, scan_values,
  query_keyed, scan_keyed, query_table, scan_table, ReadArgs,
}

-- The same fields, with the same values in all that are not protected.
abbrev pub AreAlike : {F V : Type 0} → Guardrail F → String → Assoc V → Assoc V → Type 0
AreAlike g table [] [] = Unit
AreAlike g table ((k, a) ∷ xs) ((j, b) ∷ ys) =
    (k ≡ j) × ((is_protected_field g table k ≡ true) ⊎ (a ≡ b)) × AreAlike g table xs ys
AreAlike g table [] (y ∷ ys) = ⊥
AreAlike g table (x ∷ xs) [] = ⊥

-- As many items, each of which is alike to its counterpart.
abbrev pub AreAlikeItems :
    {F V : Type 0} → Guardrail F → String → List (Assoc V) → List (Assoc V) → Type 0
AreAlikeItems g table [] [] = Unit
AreAlikeItems g table (x ∷ xs) (y ∷ ys) = AreAlike g table x y × AreAlikeItems g table xs ys
AreAlikeItems g table [] (y ∷ ys) = ⊥
AreAlikeItems g table (x ∷ xs) [] = ⊥

module _ {F V : Type 0} (of_text : String → V) (g : Guardrail F) (table : String) where
  scrubbed_alike :
      (x y : Assoc V)
      → AreAlike g table x y
      → map (scrubbed of_text g table) x ≡ map (scrubbed of_text g table) y
  scrubbed_alike [] [] h = refl
  scrubbed_alike ((k, a) ∷ xs) ((j, b) ∷ ys) (same, inl hides, rest) =
      ground (arith, same, hides, scrubbed_alike xs ys rest)
  scrubbed_alike ((k, a) ∷ xs) ((j, b) ∷ ys) (same, inr equal, rest) =
      ground (arith, same, equal, scrubbed_alike xs ys rest)
  scrubbed_alike [] (y ∷ ys) h = absurd h
  scrubbed_alike (x ∷ xs) [] h = absurd h

  pub scrubbed_items_alike :
      (xs ys : List (Assoc V))
      → AreAlikeItems g table xs ys
      → map (map (scrubbed of_text g table)) xs ≡ map (map (scrubbed of_text g table)) ys
  scrubbed_items_alike [] [] h = refl
  scrubbed_items_alike (x ∷ xs) (y ∷ ys) h =
      cc (scrubbed_alike x y h.0, scrubbed_items_alike xs ys h.1)
  scrubbed_items_alike [] (y ∷ ys) h = absurd h
  scrubbed_items_alike (x ∷ xs) [] h = absurd h

  length_alike : (xs ys : List (Assoc V)) → AreAlikeItems g table xs ys → length xs ≡ length ys
  length_alike [] [] h = refl
  length_alike (x ∷ xs) (y ∷ ys) h = omega (arith, length_alike xs ys h.1)
  length_alike [] (y ∷ ys) h = absurd h
  length_alike (x ∷ xs) [] h = absurd h

resume_same :
    {A B : Type 0} (k1 k2 : A → M B)
    → ((a : A) (w : Trace) → k1 a w ≡ k2 a w)
    → (p : Trace × Step A) → resume k1 p ≡ resume k2 p
resume_same k1 k2 same (w, returned r) = refl
resume_same k1 k2 same (w, goes a) = same a w

module _ {F V : Type 0} (v : Values V) (g : Guardrail F) where
  -- The same error, or pages with alike items and the same key to go on from.
  abbrev pub AreAlikeReplies : String → Reply Page → Reply Page → Type 0
  AreAlikeReplies table (error e1) (error e2) = e1 ≡ e2
  AreAlikeReplies table (reply p1) (reply p2) =
      AreAlikeItems g table (unmarshalled v g p1.items) (unmarshalled v g p2.items)
      × (v.unmarshal p1.last_key ≡ v.unmarshal p2.last_key)
  AreAlikeReplies table (error e1) (reply p2) = ⊥
  AreAlikeReplies table (reply p1) (error e2) = ⊥

  page_text_same :
      (intro verb end table : String) (notice : Warning) (xs ys : List (Assoc V)) (k1 k2 : Assoc V)
      → AreAlikeItems g table xs ys
      → k1 ≡ k2
      → page_text v g intro verb end table notice xs k1
        ≡ page_text v g intro verb end table notice ys k2
  unfolding page_text
  page_text_same intro verb end table notice xs ys k1 k2 alike same = ground (
    arith,
    length_alike v.of_text g table xs ys alike,
    scrubbed_items_alike v.of_text g table xs ys alike,
    scrub_items_lem v.of_text g table xs,
    scrub_items_lem v.of_text g table ys,
    same,
  )

  after_page_same :
      (operation table failing intro verb end : String) (notice : Warning) (input : ReadInput)
      (w : Trace) (r1 r2 : Reply Page)
      → AreAlikeReplies table r1 r2
      → after_page v g operation table failing
          (page_text v g intro verb end table notice)
          input
          w
          r1
        ≡ after_page v g operation table failing
            (page_text v g intro verb end table notice)
            input
            w
            r2
  after_page_same operation table failing intro verb end notice input w (error e1) (error e2) h =
      ap
        (λ e.
          after_page v g operation table failing (page_text v g intro verb end table notice) input w
            (error e))
        h
  after_page_same operation table failing intro verb end notice input w (reply p1) (reply p2) h =
      ap
        (λ s. (
          audit operation table "RCU" false ∷ reads operation table input ∷ w,
          goes (success_result s),
        ))
        (page_text_same intro verb end table notice (unmarshalled v g p1.items)
          (unmarshalled v g p2.items) (v.unmarshal p1.last_key) (v.unmarshal p2.last_key) h.0 h.1)
  after_page_same operation table failing intro verb end notice input w (error e1) (reply p2) h =
      absurd h
  after_page_same operation table failing intro verb end notice input w (reply p1) (error e2) h =
      absurd h

if_same :
    {A : Type 0} (b : Bool) (x y1 y2 : M A) (w : Trace)
    → y1 w ≡ y2 w
    → (if b then x else y1) w ≡ (if b then x else y2) w
if_same true x y1 y2 w same = refl
if_same false x y1 y2 w same = same

-- Two databases whose answers differ in nothing but the values of protected fields.
module _ {F V : Type 0} (v : Values V) (g : Guardrail F)
    (read1 read2 : Trace → String → ReadInput → Reply Page)
    (alike : (w : Trace) (table : String) (input : ReadInput)
      → AreAlikeReplies v g table (read1 w table input) (read2 w table input)) where
  read_page_same :
      (operation table failing intro verb end : String) (notice : Warning) (input : ReadInput)
      (w : Trace)
      → read_page v g read1 operation table failing
          (page_text v g intro verb end table notice)
          input
          w
        ≡ read_page v g read2 operation table failing
            (page_text v g intro verb end table notice)
            input
            w
  unfolding read_page
  read_page_same operation table failing intro verb end notice input w =
      after_page_same v g operation table failing intro verb end notice input w
        (read1 w table input) (read2 w table input) (alike w table input)

  query_keyed_same :
      (args : ReadArgs V) (start_key values : Option Item) (w : Trace)
      → query_keyed v g read1 args start_key values w
        ≡ query_keyed v g read2 args start_key values w
  unfolding query_keyed
  query_keyed_same args start_key values w =
      if_same (str_eq args.condition "") _ _ _ w
        (read_page_same "query_table" args.table_name _ _ _ _ (enforce_limit g args.limit).1 _ w)

  scan_keyed_same :
      (args : ReadArgs V) (limit : ℤ) (notice : Warning) (values start_key : Option Item)
      (w : Trace)
      → scan_keyed v g read1 args limit notice values start_key w
        ≡ scan_keyed v g read2 args limit notice values start_key w
  unfolding scan_keyed
  scan_keyed_same args limit notice values start_key w =
      read_page_same "scan_table" args.table_name _ _ _ _ notice _ w

  -- What a query and a scan give, and what they leave in the trace, does not depend on the values of
  -- protected fields: it is the same for two databases whose answers differ in nothing but such
  -- values, and not in the key after which there are more items.
  pub reads_are_secret :
      (args : ReadArgs V) (w : Trace)
      → (query_table v g read1 args w ≡ query_table v g read2 args w)
        × (scan_table v g read1 args w ≡ scan_table v g read2 args w)
  unfolding query_table scan_table
  reads_are_secret args w = (
    resume_same _ _
        (λ start_key u.
          resume_same _ _ (λ values t. query_keyed_same args start_key values t)
            (values_of v g args.values u))
        (start_key_of v g args.start_key w),
    resume_same _ _
        (λ values u.
          resume_same _ _
            (λ start_key t.
              scan_keyed_same args (enforce_limit g args.limit).0 (enforce_limit g args.limit).1
                values start_key t)
            (start_key_of v g args.start_key u))
        (scan_values v g args.values w),
  )
