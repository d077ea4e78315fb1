-- ===== src/Handlers/Passwords/Hashing.antt =====
-- That hashPasswordInItem (server/handlers.go) hashes the password and nothing else.
use mcp_server_dynamodb_sage.Prelude.{
  String, ◌≡◌, ap, ◌∙◌, ◌⊎◌, inl, inr, true, false, some, [], ◌∷◌, Assoc, All, lookup, insert,
  lookup-insert, arith, str_eq, str_eq_iff, if◌then◌else◌, Option-cases,
}
use mcp_server_dynamodb_sage.Engine.Guardrail.{Guardrail}
use mcp_server_dynamodb_sage.Handlers.Effects.{reply}
use mcp_server_dynamodb_sage.Handlers.Runs.{Reply-cases}
use mcp_server_dynamodb_sage.Handlers.Passwords.{
  Values, is_password, find_password, hashed, hash_value, hash_password_in_item,
}

-- Any field of the password is the one of this name.
abbrev pub IsOnly : {V : Type 0} → String → Assoc V → Type 0
IsOnly name item = All (λ f. (is_password (f.0) ≡ false) ⊎ (f.0 ≡ name)) item

find_password_lem :
    {V : Type 0} (name : String) (value : V) (item : Assoc V)
    → is_password name ≡ true
    → IsOnly name item
    → lookup name item ≡ some value
    → find_password item ≡ some name
unfolding find_password
find_password_lem name value [] names only has = absurd (cc)
find_password_lem name value ((k, v) ∷ item) names (inl other, only) has =
    ground
      (arith, find_password_lem name value item names only, str_eq_iff k name, other, names, has)
find_password_lem name value ((k, v) ∷ item) names (inr same, only) has =
    ground (arith, names, same)

hash_value_lem :
    {V : Type 0} (v : Values V) (item item' : Assoc V) (name : String) (value : V)
    → hash_value v item name (some value) ≡ hashed item'
    → (text : String) × (h : String) × (v.as_text value ≡ some text)
      × (v.hash text ≡ reply h)
      × (item' ≡ insert name (v.of_text h) item)
hash_value_lem v item item' name value done = elim (Option-cases (v.as_text value)) [
  | inl no_text ↦ absurd (ground (arith, no_text, done))
  | inr (text, is_text) ↦ elim (Reply-cases (v.hash text)) [
    | inl (e, fails) ↦ absurd (ground (arith, is_text, fails, done))
    | inr (h, hashes) ↦ (text, h, is_text, hashes, ground (arith, is_text, hashes, done))
  ]
]

-- With hashing enforced, where one field alone folds to "password": when hashing an item succeeds,
-- the value of that field was a text, it is now the hash of that text, and each other field is as it
-- was.
pub hash_password_in_item_lem :
    {F V : Type 0} (v : Values V) (g : Guardrail F) (item item' : Assoc V) (name : String)
    (value : V)
    → g.config.enforce_password_hashing ≡ true
    → is_password name ≡ true
    → IsOnly name item
    → lookup name item ≡ some value
    → hash_password_in_item v g item ≡ hashed item'
    → (text : String) × (h : String) × (v.as_text value ≡ some text)
      × (v.hash text ≡ reply h)
      × ((j : String)
          → lookup j item' ≡ (if str_eq name j then some (v.of_text h) else lookup j item))
unfolding hash_password_in_item
hash_password_in_item_lem v g item item' name value enforced names only has done =
    let found = find_password_lem name value item names only has in
    let (text, h, is_text, hashes, whole) =
      hash_value_lem v item item' name value (ground (arith, enforced, found, has, done)) in
    (text, h, is_text, hashes, λ j. ap (lookup j) whole ∙ lookup-insert name j (v.of_text h) item)
