-- ===== src/Handlers/Passwords.antt =====
-- hashPasswordInItem of server/handlers.go. A value of an item is Go's `any`: an abstract type, of
-- which the texts alone are told apart.
pub mod Hashing
use mcp_server_dynamodb_sage.Prelude.{
  ℕ, String, ◌≡◌, ◌≢◌, refl, Bool, true, false, not, ◌&&◌, Option, none, some, List, [], ◌∷◌, Assoc,
  All, lookup, insert, any, arith, str_eq, str_eq_iff, str_eq_refl, str_append, equal_fold,
  if◌then◌else◌, Bool-cases, Option-cases, inl, inr,
}
use mcp_server_dynamodb_sage.Prelude.Int.{ℤ}
use mcp_server_dynamodb_sage.Engine.Config.{AppConfig}
use mcp_server_dynamodb_sage.Engine.Values.{Item}
use mcp_server_dynamodb_sage.Engine.Guardrail.{Guardrail}
use mcp_server_dynamodb_sage.Risk.Writes.{Marshalled}
use mcp_server_dynamodb_sage.Handlers.Effects.{Reply, error, reply}

-- What the handlers use of Go's values, of the AWS library's marshalling, and of bcrypt.
pub record Values (V : Type 0) : Type 0 where
  pub of_text : String → V
  pub as_text : V → Option String
  pub marshal : Assoc V → Marshalled
  pub unmarshal : Item → Assoc V
  pub json : Assoc V → String  -- json.Marshal
  pub print : Assoc V → String  -- %v
  pub schema_errors : List (String × String) → String
  pub json_indent : Assoc V → Option String  -- json.MarshalIndent
  pub number : ℤ → String
  pub hash : String → Reply String

abbrev pub is_password : String → Bool
is_password k = equal_fold k "password"

-- The loop over the fields, up to the first that is a password's.
unfoldable pub find_password : {V : Type 0} → Assoc V → Option String
find_password [] = none
find_password ((k, _) ∷ fields) =
    let rest = find_password fields in if is_password k then some k else rest

-- The item with its password hashed, or the text of the error.
pub data Hashed (V : Type 0) : Type 0 where
  hashed : Assoc V → Hashed V
  refused : String → Hashed V

module _ {V : Type 0} (v : Values V) where
  abbrev pub hashed_with : Assoc V → String → Reply String → Hashed V
  hashed_with item k (error e) = refused (str_append "Error when hashing password: " e)
  hashed_with item k (reply h) = hashed (insert k (v.of_text h) item)

  abbrev pub hash_value : Assoc V → String → Option V → Hashed V
  hash_value item k none = refused "Password must be a string"
  hash_value item k (some value) = elim (v.as_text value) [
    | none ↦ refused "Password must be a string"
    | some text ↦ hashed_with item k (v.hash text)
  ]

  unfoldable pub hash_password_in_item : {F : Type 0} → Guardrail F → Assoc V → Hashed V
  unfolding find_password
  hash_password_in_item g item =
      if g.config.enforce_password_hashing
      then elim (find_password item) [
        | none ↦ hashed item
        | some k ↦ hash_value item k (lookup k item)
      ]
      else hashed item
