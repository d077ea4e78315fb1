-- ===== src/Handlers/Create/Attributes.antt =====
-- Which attributes createOptimizedTable (server/handlers.go) defines.
use mcp_server_dynamodb_sage.Prelude.{
  String, ◌≡◌, refl, ap, Bool, true, false, ◌||◌, ◌&&◌, Option, none, some, List, [], ◌∷◌, ◌++◌,
  Assoc, lookup, insert, lookup-insert, any, arith, str_eq, str_eq_iff, if◌then◌else◌, Bool-cases,
  inl, inr,
}
use mcp_server_dynamodb_sage.Handlers.Effects.{
  KeyElement, SecondaryIndex, CreateTableInput, Throughput,
}
use mcp_server_dynamodb_sage.Handlers.Create.{
  GsiArgs, LsiArgs, CreateTableArgs, key_elements, hash_key_of, get_gsis, get_lsis, provide,
  type_or_s, add_attribute, add_attributes, key_names, gsi_names, lsi_names, create_input,
  get_provisioned_throughput,
}

abbrev pub has : String → List String → Bool
has j names = any (λ n. str_eq n j) names

abbrev pub index_names : List SecondaryIndex → List String
index_names [] = []
index_names (i ∷ is) = key_names i.schema ++ index_names is

-- The names that the key schemas of a request use: the table's and those of its indexes.
abbrev pub used : CreateTableInput → List String
used input =
    key_names input.key_schema
    ++ index_names input.global_indexes
    ++ index_names input.local_indexes

abbrev or_else : Option String → Option String → Option String
or_else none rest = rest
or_else (some t) rest = some t

has-append : (j : String) (xs ys : List String) → has j (xs ++ ys) ≡ (has j xs || has j ys)
has-append j [] ys = refl
has-append j (x ∷ xs) ys = ground (arith, has-append j xs ys)

provide_lem :
    (attributes : List (String × String)) (provided : Assoc String) (j : String)
    → lookup j (provide attributes provided) ≡ or_else (lookup j provided) (lookup j attributes)
unfolding provide
provide_lem [] provided j = ground arith
provide_lem ((name, type) ∷ attributes) provided j = ground (
  arith,
  provide_lem attributes provided j,
  provide_lem attributes (insert name type provided) j,
  lookup-insert name j type provided,
  str_eq_iff name j,
)

add_attribute_lem :
    (provided defined : Assoc String) (name j : String)
    → lookup j (add_attribute provided name defined)
      ≡ or_else
          (lookup j defined)
          (if str_eq name j then some (type_or_s (lookup j provided)) else none)
unfolding add_attribute
add_attribute_lem provided defined name j =
    ground
      (arith, lookup-insert name j (type_or_s (lookup name provided)) defined, str_eq_iff name j)

add_attributes_lem :
    (provided : Assoc String) (names : List String) (defined : Assoc String) (j : String)
    → lookup j (add_attributes provided names defined)
      ≡ or_else
          (lookup j defined)
          (if has j names then some (type_or_s (lookup j provided)) else none)
unfolding add_attributes
add_attributes_lem provided [] defined j = ground arith
add_attributes_lem provided (name ∷ names) defined j = ground (
  arith,
  add_attributes_lem provided names (add_attribute provided name defined) j,
  add_attribute_lem provided defined name j,
)

key_names-key_elements : (ks : List KeyElement) → key_names (key_elements ks) ≡ key_names ks
unfolding key_elements
key_names-key_elements [] = refl
key_names-key_elements (k ∷ ks) = ap (λ ns. k.name ∷ ns) (key_names-key_elements ks)

has-get_gsis :
    (j : String) (t : Option Throughput) (gs : List GsiArgs)
    → has j (index_names (get_gsis t gs)) ≡ has j (gsi_names gs)
unfolding get_gsis
has-get_gsis j t [] = refl
has-get_gsis j t (g ∷ gs) = ground (arith, has-get_gsis j t gs)

abbrev is_nonempty : List LsiArgs → Bool
is_nonempty [] = false
is_nonempty (_ ∷ _) = true

has-get_lsis :
    (j hash : String) (ls : List LsiArgs)
    → has j (index_names (get_lsis hash ls))
      ≡ (has j (lsi_names ls) || (is_nonempty ls && str_eq hash j))
unfolding get_lsis
has-get_lsis j hash [] = refl
has-get_lsis j hash (l ∷ ls) = ground (arith, has-get_lsis j hash ls)

abbrev is_hash : KeyElement → Bool
is_hash k = str_eq k.key_type "HASH"

hash_key_of_found :
    (name : String) (ks : List KeyElement) → any is_hash ks ≡ false → hash_key_of name ks ≡ name
unfolding hash_key_of
hash_key_of_found name [] h = refl
hash_key_of_found name (k ∷ ks) h = ground (arith, hash_key_of_found name ks)

-- The hash key is one of the table's keys, where there is one.
has-hash_key_of :
    (found : String) (ks : List KeyElement) (j : String)
    → any is_hash ks ≡ true
    → str_eq (hash_key_of found ks) j ≡ true
    → has j (key_names ks) ≡ true
unfolding hash_key_of
has-hash_key_of found [] j some_hash same = absurd (cc)
has-hash_key_of found (k ∷ ks) j some_hash same = elim (Bool-cases (any is_hash ks)) [
  | inl later ↦
      ground (
        arith,
        has-hash_key_of (if str_eq k.key_type "HASH" then k.name else found) ks j later same,
      )
  | inr none_later ↦ ground (arith, some_hash, none_later, same, hash_key_of_found k.name ks)
]

-- Where the key schema has a hash key, a request to create a table defines each name that the key
-- schemas of the request use, with the first type provided for it and else with "S", and it defines
-- no other name.
pub create_input_attributes :
    (args : CreateTableArgs) (name : String)
    → any (λ k. str_eq k.key_type "HASH") args.key_schema ≡ true
    → lookup name (create_input args).attributes ≡ (
        if has name (used (create_input args))
        then some (type_or_s (lookup name args.attributes))
        else none)
unfolding create_input
create_input_attributes args name hashed =
    let names = key_names args.key_schema ++ gsi_names args.gsis ++ lsi_names args.lsis in
    let hash = hash_key_of "" args.key_schema in
    let throughput =
      get_provisioned_throughput args.billing_mode args.read_units args.write_units in
    ground (
      arith,
      add_attributes_lem (provide args.attributes []) names [] name,
      provide_lem args.attributes [] name,
      key_names-key_elements args.key_schema,
      has-append name (key_names args.key_schema) (gsi_names args.gsis),
      has-append name (key_names args.key_schema ++ gsi_names args.gsis) (lsi_names args.lsis),
      has-append name (key_names args.key_schema) (index_names (get_gsis throughput args.gsis)),
      has-append name (key_names args.key_schema ++ index_names (get_gsis throughput args.gsis))
          (index_names (get_lsis hash args.lsis)),
      has-get_gsis name throughput args.gsis,
      has-get_lsis name hash args.lsis,
      has-hash_key_of "" args.key_schema name hashed,
    )
