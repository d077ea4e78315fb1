-- ===== src/Engine/Guardrail/Scrub.antt =====
-- ScrubItems of internal/engine/guardrails.go redacts every protected field and nothing else.
use mcp_server_dynamodb_sage.Prelude.{
  String, ◌≡◌, Bool, true, false, ◌||◌, List, [], ◌∷◌, map, any, Assoc, arith, if◌then◌else◌,
}
use mcp_server_dynamodb_sage.Engine.Guardrail.{
  Guardrail, is_protected_field, scrub_fields, scrub_from, scrub_items, redacted,
}

module _ {F V : Type 0} (of_text : String → V) (g : Guardrail F) (name : String) where
  -- What a field of an item is after scrubbing.
  abbrev pub scrubbed : String × V → String × V
  scrubbed (k, v) = (k, if is_protected_field g name k then of_text (redacted k) else v)

  abbrev pub has_protected : Assoc V → Bool
  has_protected item = any (λ e. is_protected_field g name e.0) item

  scrub_fields_lem :
      (item : Assoc V) (piid : Bool)
      → scrub_fields of_text g name item piid ≡ (map scrubbed item, piid || has_protected item)
  unfolding scrub_fields
  scrub_fields_lem [] piid = ground arith
  scrub_fields_lem ((k, v) ∷ item) piid =
      rw (scrub_fields_lem item (if is_protected_field g name k then true else piid)) (ground arith)

  abbrev pub found : List (Assoc V) → Bool
  found items = any has_protected items

  scrub_from_lem :
      (items : List (Assoc V)) (piid : Bool)
      → scrub_from of_text g name items piid ≡ (map (map scrubbed) items, piid || found items)
  unfolding scrub_from
  scrub_from_lem [] piid = ground arith
  scrub_from_lem (item ∷ items) piid =
      rw (scrub_fields_lem item piid, scrub_from_lem items (piid || has_protected item))
        (ground arith)

  -- In every item of the result each protected field is redacted and each other field has kept its
  -- value, so the items have the fields that they had, in the same order; and a detection is
  -- counted exactly when some item has a protected field.
  pub scrub_items_lem :
      (items : List (Assoc V))
      → scrub_items of_text g name items ≡ (map (map scrubbed) items, found items)
  unfolding scrub_items
  scrub_items_lem items = scrub_from_lem items false
