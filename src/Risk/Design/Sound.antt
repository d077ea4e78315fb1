-- ===== src/Risk/Design/Sound.antt =====
-- Which tables internal/risk/analyzer.go lets a caller create without a confirmation.
use Prim.Native.String.{len}
use mcp_server_dynamodb_sage.Prelude.{
  ℕ, ◌≤◌, String, ◌≡◌, ◌↔◌, refl, Bool, true, false, not, ◌&&◌, ◌||◌, none, some, List, [], ◌∷◌,
  ◌++◌, Assoc, lookup, any, length, ltb, str_eq, arith, if◌then◌else◌, Bool-cases, inl, inr,
}
use mcp_server_dynamodb_sage.Risk.Level.{low, get_risk_level}
use mcp_server_dynamodb_sage.Risk.Level.Reasons.{guarded_nothing, both_nothing}
use mcp_server_dynamodb_sage.Risk.Design.{
  Json, text_at, is_hot, pattern_match, key_type, has_key, hash_key_reason, hash_key_reasons,
  no_hash_key, no_sort_key, validate_key_schema, type_reason, attribute_reason,
  validate_attribute_definitions, projects_all, gsi_reason, gsi_reasons, validate_gsis,
  analyze_create_optimized_table,
}

-- An element of the key schema whose hash key is one of the hot ones.
abbrev pub is_hot_hash : Assoc Json → Bool
is_hot_hash m = elim (text_at "attributeName" m) [
  | none ↦ false
  | some name ↦ str_eq (key_type m) "HASH" && is_hot name
]

-- An attribute whose type is not the usual one of its name, or whose name is too long, where both
-- are texts: others are not looked at.
abbrev pub is_odd_type : String → String → Bool
is_odd_type name type = elim (lookup name pattern_match) [
  | none ↦ false
  | some expected ↦ not (str_eq expected type)
]

abbrev pub is_odd_attribute : Assoc Json → Bool
is_odd_attribute m = elim (text_at "attributeName" m) [
  | none ↦ false
  | some name ↦ elim (text_at "attributeType" m) [
    | none ↦ false
    | some type ↦ is_odd_type name type || ltb 100 (len name)
  ]
]

-- An index on a hot key, or one that projects everything, where its partition key is a text: others
-- are not looked at.
abbrev pub is_costly_gsi : Assoc Json → Bool
is_costly_gsi m = elim (text_at "partitionKey" m) [
  | none ↦ false
  | some key ↦ is_hot key || projects_all m
]

pub record IsSound (key_schema attributes gsis : List (Assoc Json)) : Type 0 where
  pub hash_key : has_key "HASH" key_schema ≡ true
  pub sort_key : has_key "RANGE" key_schema ≡ true
  pub cool_hash_key : any is_hot_hash key_schema ≡ false
  pub usual_attributes : any is_odd_attribute attributes ≡ false
  pub cheap_gsis : any is_costly_gsi gsis ≡ false
  pub few_gsis : length gsis ≤ 5

hash_one : (m : Assoc Json) → (hash_key_reason m ≡ []) ↔ (is_hot_hash m ≡ false)
hash_one m = (λ h. ground (arith, h), λ h. ground (arith, h))

type_one : (name type : String) → (type_reason name type ≡ []) ↔ (is_odd_type name type ≡ false)
type_one name type = (λ h. ground (arith, h), λ h. ground (arith, h))

attribute_one : (m : Assoc Json) → (attribute_reason m ≡ []) ↔ (is_odd_attribute m ≡ false)
attribute_one m = (λ h. ground (arith, h), λ h. ground (arith, h))

gsi_one : (m : Assoc Json) → (gsi_reason m ≡ []) ↔ (is_costly_gsi m ≡ false)
gsi_one m = (λ h. ground (arith, h), λ h. ground (arith, h))

-- The reasons of a loop are none when those of each element are.
either_one :
    (xs ys : List String) (a b : Bool)
    → (xs ≡ []) ↔ (a ≡ false)
    → (ys ≡ []) ↔ (b ≡ false)
    → (xs ++ ys ≡ []) ↔ ((a || b) ≡ false)
either_one xs ys a b p q =
    let both = both_nothing xs ys p q in
    (
      λ h. let e = both.0 h in ground (arith, e.0, e.1),
      λ h. both.1 (ground (arith, h), ground (arith, h)),
    )

hash_all : (ms : List (Assoc Json)) → (hash_key_reasons ms ≡ []) ↔ (any is_hot_hash ms ≡ false)
unfolding hash_key_reasons
hash_all [] = (λ h. refl, λ h. refl)
hash_all (m ∷ ms) = either_one _ _ _ _ (hash_one m) (hash_all ms)

attributes_all :
    (ms : List (Assoc Json))
    → (validate_attribute_definitions ms ≡ []) ↔ (any is_odd_attribute ms ≡ false)
unfolding validate_attribute_definitions
attributes_all [] = (λ h. refl, λ h. refl)
attributes_all (m ∷ ms) = either_one _ _ _ _ (attribute_one m) (attributes_all ms)

gsis_all : (ms : List (Assoc Json)) → (gsi_reasons ms ≡ []) ↔ (any is_costly_gsi ms ≡ false)
unfolding gsi_reasons
gsis_all [] = (λ h. refl, λ h. refl)
gsis_all (m ∷ ms) = either_one _ _ _ _ (gsi_one m) (gsis_all ms)

few_all : (n : ℕ) (r : String) → ((if ltb 5 n then r ∷ [] else []) ≡ []) ↔ (n ≤ 5)
few_all n r = elim (Bool-cases (ltb 5 n)) [
  | inl e ↦ (λ h. ground (arith, h, e), λ h. ground (arith, h, e))
  | inr e ↦ (λ h. ground (arith, h, e), λ h. ground (arith, h, e))
]

unless_nothing : (b : Bool) (r : String) → ((if b then [] else r ∷ []) ≡ []) ↔ (b ≡ true)
unless_nothing true r = (λ h. refl, λ h. refl)
unless_nothing false r = (λ h. absurd cc, λ h. absurd cc)

low_iff : (rs : List String) → (get_risk_level rs ≡ low) ↔ (rs ≡ [])
unfolding get_risk_level
low_iff [] = (λ h. refl, λ h. refl)
low_iff (r ∷ []) = (λ h. absurd cc, λ h. absurd cc)
low_iff (r ∷ s ∷ rs) = (λ h. absurd cc, λ h. absurd cc)

sort_of : (hash sort : Bool) → hash ≡ true → (hash && not sort) ≡ false → sort ≡ true
sort_of hash sort h s = ground (arith, h, s)

key_schema_all :
    (ms : List (Assoc Json))
    → (validate_key_schema ms ≡ [])
      ↔ ((any is_hot_hash ms ≡ false) × (has_key "HASH" ms ≡ true) × (has_key "RANGE" ms ≡ true))
unfolding validate_key_schema
key_schema_all ms =
    let hash : Bool = has_key "HASH" ms in
    let sort : Bool = has_key "RANGE" ms in
    let all =
      both_nothing _ _
        (both_nothing (hash_key_reasons ms) _ (hash_all ms) (unless_nothing hash no_hash_key))
        (guarded_nothing (hash && not sort) no_sort_key) in
    (
      λ h. let ((c, k), s) = all.0 h in (c, k, sort_of hash sort k s),
      λ h. all.1 ((h.0, h.1), ground (arith, h.2)),
    )

-- The risk of creating a table is low exactly when the table is sound: it has a hash key, none of
-- the hot ones, and a sort key; no attribute whose name and type are both texts has a type other than
-- the usual one of its name, or a name of more than 100 bytes; and there are at most five indexes, and
-- none whose partition key is a text is on a hot key or projects every attribute.
pub create_table_low_iff :
    (number : ℕ → String) (table : String) (key_schema attributes gsis : List (Assoc Json))
    → ((analyze_create_optimized_table number table key_schema attributes gsis).level ≡ low)
      ↔ IsSound key_schema attributes gsis
unfolding analyze_create_optimized_table validate_gsis
create_table_low_iff number table key_schema attributes gsis =
    let key_reasons : List String = validate_key_schema key_schema in
    let attribute_reasons : List String = validate_attribute_definitions attributes in
    let low_level = low_iff (key_reasons ++ attribute_reasons ++ validate_gsis number gsis) in
    let all =
      both_nothing (key_reasons ++ attribute_reasons) (validate_gsis number gsis)
        (both_nothing key_reasons attribute_reasons (key_schema_all key_schema)
          (attributes_all attributes))
        (both_nothing (gsi_reasons gsis) _ (gsis_all gsis) (few_all (length gsis) _)) in
    (
      λ h.
          let ((k, a), (c, n)) = all.0 (low_level.0 h) in
          record {
            hash_key = k.1;
            sort_key = k.2;
            cool_hash_key = k.0;
            usual_attributes = a;
            cheap_gsis = c;
            few_gsis = n;
          },
      λ h. low_level.1 (
          all.1 (
            ((h.cool_hash_key, h.hash_key, h.sort_key), h.usual_attributes),
            (h.cheap_gsis, h.few_gsis),
          )),
    )
