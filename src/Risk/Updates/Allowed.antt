-- ===== src/Risk/Updates/Allowed.antt =====
-- Which updates the analysis of internal/risk/analyzer.go lets through.
use mathlib.Core.Path.{subst}
use mcp_server_dynamodb_sage.Prelude.{
  ℕ, ◌≤◌, ◌+◌, ◌⊎◌, inl, inr, String, ◌≡◌, ◌↔◌, refl, ap, false, Option, none, some, List, [], ◌∷◌,
  Assoc, ltb, str_append, append_some, arith, Bool-cases,
}
use mcp_server_dynamodb_sage.Engine.Values.{Item, estimated_size}
use mcp_server_dynamodb_sage.Engine.Guardrail.{
  Guardrail, max_individual_size, validate_read_only_table, validate_protected_table,
  validate_schema, get_sensitive_fields, check_table_pii_fields,
}
use mcp_server_dynamodb_sage.Risk.Level.{join_reasons, goes_on, decide}
use mcp_server_dynamodb_sage.Risk.Level.Reasons.{goes_on_iff_none}
use mcp_server_dynamodb_sage.Risk.Writes.{Marshalled, marshalled, not_marshalled, Printer}
use mcp_server_dynamodb_sage.Risk.Writes.Protected.{failed_is_warned}
use mcp_server_dynamodb_sage.Risk.Updates.{
  Fetched, found, get_failed, Lookups, get_item_from_db, first_get, second_get, Said, bytes_text,
  updated_size_text, check_updated_item_size, current_text, current_item_text,
  check_current_item_pii_fields, update_reasons, after_updated, after_current, after_marshal,
  analyze_update_item,
}
use mcp_server_dynamodb_sage.Risk.Updates.Texts.{literals, not_said, IsSimple}
use mcp_server_dynamodb_sage.Risk.Updates.Reasons.{reasons-AreTexts, reasons_nothing}

module _ {F V : Type 0} (print : Printer) (g : Guardrail F) (table : String)
    (marshal : Assoc V → Marshalled) (unmarshal : Item → Assoc V ⊎ String) where
  -- What DynamoDB answered about the item's fields: no item, or one that can be unmarshalled and has
  -- no personal field of the table.
  abbrev pub IsClean : Fetched → Type 0
  IsClean (get_failed e) = ⊥
  IsClean (found none) = Unit
  IsClean (found (some item)) =
      (i : Assoc V) × (unmarshal item ≡ inl i) × (check_table_pii_fields g table i ≡ [])

  -- What it answered about the item's size: no item, or one that is within the limit with the
  -- payload added.
  abbrev pub IsWithinLimit : ℕ → Fetched → Type 0
  IsWithinLimit payload (get_failed e) = ⊥
  IsWithinLimit payload (found none) = Unit
  IsWithinLimit payload (found (some item)) = estimated_size item + payload ≤ max_individual_size

  current_clean :
      (u : Assoc V ⊎ String)
      → (current_text print g table marshal unmarshal u ≡ inl "")
        ↔ ((i : Assoc V) × (u ≡ inl i) × (check_table_pii_fields g table i ≡ []))
  unfolding current_text
  current_clean (inr e) = (λ h. absurd cc, λ h. absurd (cc (h.1)))
  current_clean (inl item) = none_personal (check_table_pii_fields g table item) refl
    where
      none_personal :
          (fs : List String)
          → check_table_pii_fields g table item ≡ fs
          → (current_text print g table marshal unmarshal (inl item) ≡ inl "") ↔ (
              (i : Assoc V) × (◌≡◌ {A = Assoc V ⊎ String} (inl item) (inl i))
              × (check_table_pii_fields g table i ≡ []))
      none_personal [] e = (λ h. (item, refl, e), λ h. ground (arith, e))
      none_personal (f ∷ fs) e = (
        λ h. absurd (
            not_said _
              (append_some "current item contains sensitive_fields " (join_reasons (f ∷ fs))
                literals.3)
              (ground (arith, h, e))),
        λ h. absurd (ground (arith, e, h.1, h.2)),
      )

  current_item_empty :
      (f : Fetched) → (current_item_text print g table marshal unmarshal f ≡ inl "") ↔ IsClean f
  unfolding current_item_text
  current_item_empty (get_failed e) = (λ h. absurd cc, λ h. absurd h)
  current_item_empty (found none) = (λ h. tt, λ h. refl)
  current_item_empty (found (some item)) = current_clean (unmarshal item)

  updated_within :
      (payload : ℕ) (f : Fetched)
      → (updated_size_text print g payload f ≡ inl "") ↔ IsWithinLimit payload f
  unfolding updated_size_text
  updated_within payload (get_failed e) = (λ h. absurd cc, λ h. absurd h)
  updated_within payload (found none) = (λ h. tt, λ h. refl)
  updated_within payload (found (some item)) =
      elim (Bool-cases (ltb max_individual_size (estimated_size item + payload))) [
        | inl e ↦ (
          λ h. absurd (
              not_said (bytes_text print "Updated item" (estimated_size item + payload))
                (append_some "Updated item" _ literals.5) (ground (arith, h, e))),
          λ h. absurd (ground (arith, h, e)),
        )
        | inr e ↦ (λ h. ground (arith, e), λ h. ground (arith, e))
      ]

  -- The conditions under which an update may be made without a confirmation, of the values once they
  -- are marshalled and of the key.
  pub record IsHarmlessUpdate (db : Option Lookups) (values : Assoc V) (av : Item) (key : Item)
      (expression : String) : Type 0 where
    pub writable :
        (validate_read_only_table g table ≡ false) × (validate_protected_table g table ≡ false)
    pub conforms : validate_schema g table av ≡ []
    pub nothing_personal : check_table_pii_fields g table values ≡ []
    pub nothing_sensitive : get_sensitive_fields g values ≡ []
    pub clean : IsClean (get_item_from_db (first_get db) key)
    pub small : estimated_size av ≤ max_individual_size
    pub within : IsWithinLimit (estimated_size av) (get_item_from_db (second_get db) key)
    pub simple : IsSimple g expression

  -- What an update must satisfy besides what DynamoDB answers.
  abbrev IsPlain : Assoc V → Item → String → Type 0
  IsPlain values av expression =
      ((validate_read_only_table g table ≡ false) × (validate_protected_table g table ≡ false))
      × (validate_schema g table av ≡ [])
      × (check_table_pii_fields g table values ≡ [])
      × (get_sensitive_fields g values ≡ [])
      × (estimated_size av ≤ max_individual_size)
      × IsSimple g expression

  updated_goes_on :
      (values : Assoc V) (av : Item) (expression current : String) (s : Said)
      → (decide false (after_updated print g table marshal unmarshal values av expression current s)
          ≡ goes_on)
        ↔ ((s ≡ inl "") × (current ≡ "") × IsPlain values av expression)
  unfolding after_updated
  updated_goes_on values av expression current (inr e) = (
    λ h. absurd (cc (h, failed_is_warned (str_append "failed to check updated item size: " e))),
    λ h. absurd (cc (h.0)),
  )
  updated_goes_on values av expression current (inl updated) =
      let none_left =
        goes_on_iff_none table
          (update_reasons print g table marshal unmarshal values av expression current updated)
          (reasons-AreTexts print g table marshal unmarshal values av expression current updated) in
      let harmless =
        reasons_nothing print g table marshal unmarshal values av expression current updated in
      (
        λ h.
            let (w, c, p, s, cur, n, u, e) = harmless.0 (none_left.0 h) in
            (ap (λ t. inl t) u, cur, (w, c, p, s, n, e)),
        λ h.
            let (said, cur, (w, c, p, s, n, e)) = h in
            none_left.1 (harmless.1 (w, c, p, s, cur, n, cc (said), e)),
      )

  current_goes_on :
      (db : Option Lookups) (key values : Assoc V) (av : Item) (expression : String) (s : Said)
      → (decide false (after_current print g table marshal unmarshal db key values av expression s)
          ≡ goes_on)
        ↔ ((s ≡ inl "")
            × (check_updated_item_size print g (second_get db) av (marshal key) ≡ inl "")
            × IsPlain values av expression)
  unfolding after_current
  current_goes_on db key values av expression (inr e) =
      (λ h. absurd (cc (h, failed_is_warned e)), λ h. absurd (cc (h.0)))
  current_goes_on db key values av expression (inl current) =
      let both =
        updated_goes_on values av expression current
          (check_updated_item_size print g (second_get db) av (marshal key)) in
      (
        λ h. let (u, cur, plain) = both.0 h in (ap (λ t. inl t) cur, u, plain),
        λ h. let (said, u, plain) = h in both.1 (u, cc (said), plain),
      )

  -- The two checks that need the key.
  keyed :
      (db : Option Lookups) (values : Assoc V) (av : Item) (expression : String) (m : Marshalled)
      → ((check_current_item_pii_fields print g table marshal unmarshal (first_get db) m ≡ inl "")
          × (check_updated_item_size print g (second_get db) av m ≡ inl "")
          × IsPlain values av expression)
        ↔ ((key : Item) × (m ≡ marshalled key) × IsHarmlessUpdate db values av key expression)
  unfolding check_current_item_pii_fields check_updated_item_size
  keyed db values av expression (not_marshalled e) =
      (λ h. absurd (cc (h.0)), λ h. absurd (cc (h.1)))
  keyed db values av expression (marshalled key) =
      let clean = current_item_empty (get_item_from_db (first_get db) key) in
      let fits = updated_within (estimated_size av) (get_item_from_db (second_get db) key) in
      (
        λ h.
            let (cur, u, (w, c, p, s, n, e)) = h in
            (
              key,
              refl,
              record {
                writable = w;
                conforms = c;
                nothing_personal = p;
                nothing_sensitive = s;
                clean = clean.0 cur;
                small = n;
                within = fits.0 (ground (arith, u, n));
                simple = e;
              },
            ),
        λ h.
            let (other, same, v) = h in
            let v = subst (λ k. IsHarmlessUpdate db values av k expression) (cc (same)) v in
            (
              clean.1 v.clean,
              ground (arith, fits.1 v.within, v.small),
              (v.writable, v.conforms, v.nothing_personal, v.nothing_sensitive, v.small, v.simple),
            ),
      )

  marshal_goes_on :
      (db : Option Lookups) (key values : Assoc V) (expression : String) (m : Marshalled)
      → (decide false (after_marshal print g table marshal unmarshal db key values expression m)
          ≡ goes_on)
        ↔ ((av : Item) × (m ≡ marshalled av)
            × ((k : Item) × (marshal key ≡ marshalled k)
                × IsHarmlessUpdate db values av k expression))
  unfolding after_marshal
  marshal_goes_on db key values expression (not_marshalled e) = (
    λ h. absurd (cc (h, failed_is_warned (str_append "failed to marshal item: " e))),
    λ h. absurd (cc (h.1)),
  )
  marshal_goes_on db key values expression (marshalled av) =
      let current = current_goes_on db key values av expression (
        check_current_item_pii_fields print g table marshal unmarshal (first_get db)
          (marshal key)) in
      let both = keyed db values av expression (marshal key) in
      (
        λ h. (av, refl, both.0 (current.0 h)),
        λ h.
            let (other, same, v) = h in
            current.1 (
              both.1 (
                subst
                  (λ a.
                    (k : Item) × (marshal key ≡ marshalled k)
                    × IsHarmlessUpdate db values a k expression)
                  (cc (same)) v)),
      )

  -- An update that nobody has confirmed goes on exactly when its values and its key can be marshalled
  -- and it is harmless: the table is neither read-only nor protected; the values conform to its
  -- schema, and no name among them is personal to the table or sensitive; the item that the first
  -- GetItem finds, if it finds one, can be unmarshalled and has no personal field of the table; the
  -- values are within the limit of one item, and so they are together with the item that the second
  -- GetItem finds, if it finds one; no GetItem fails; and the expression is not blank, has a clause,
  -- and has no more actions than the threshold. Otherwise the caller is warned.
  pub update_goes_on_iff :
      (db : Option Lookups) (key values : Assoc V) (expression : String)
      → (decide false (analyze_update_item print g table marshal unmarshal db key values expression)
          ≡ goes_on)
        ↔ ((av : Item) × (marshal values ≡ marshalled av)
            × ((k : Item) × (marshal key ≡ marshalled k)
                × IsHarmlessUpdate db values av k expression))
  unfolding analyze_update_item
  update_goes_on_iff db key values expression =
      marshal_goes_on db key values expression (marshal values)
