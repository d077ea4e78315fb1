-- ===== src/Engine/Values.antt =====
-- DynamoDB attribute values, and the size that internal/engine/guardrails.go estimates for them.
pub mod Order
use mcp_server_dynamodb_sage.Prelude.{ℕ, ◌+◌, String, len, Bool, List, [], ◌∷◌, length}

mutual
  -- The members of types.AttributeValue. A byte slice is a list of bytes.
  pub data AttributeValue : Type 0 where
    member_s : String → AttributeValue
    member_n : String → AttributeValue
    member_b : List ℕ → AttributeValue
    member_bool : Bool → AttributeValue
    member_null : Bool → AttributeValue
    member_ss : List String → AttributeValue
    member_ns : List String → AttributeValue
    member_bs : List (List ℕ) → AttributeValue
    member_l : Elements → AttributeValue
    member_m : Item → AttributeValue

  pub data Elements : Type 0 where
    nil : Elements
    cons : AttributeValue → Elements → Elements

  -- A map[string]types.AttributeValue, in the order in which a loop visits it.
  pub data Item : Type 0 where
    no_entries : Item
    entry : String → AttributeValue → Item → Item

-- The loops over a set of texts and a set of byte slices.
unfoldable pub texts_size : List String → ℕ
texts_size [] = 0
texts_size (t ∷ ts) = len t + texts_size ts

unfoldable pub slices_size : List (List ℕ) → ℕ
slices_size [] = 0
slices_size (x ∷ xs) = length x + slices_size xs

unfoldable mutual
  -- calculateSize(key, value)
  pub calculate_size : String → AttributeValue → ℕ
  calculate_size key (member_s v) = len key + len v
  calculate_size key (member_n v) = len key + len v
  calculate_size key (member_b v) = len key + length v
  calculate_size key (member_bool v) = len key + 1
  calculate_size key (member_null v) = len key + 1
  calculate_size key (member_ss v) = len key + texts_size v
  calculate_size key (member_ns v) = len key + texts_size v
  calculate_size key (member_bs v) = len key + slices_size v
  calculate_size key (member_l v) = len key + elements_size v
  calculate_size key (member_m v) = len key + estimated_size v

  pub elements_size : Elements → ℕ
  elements_size nil = 0
  elements_size (cons x xs) = calculate_size "" x + elements_size xs

  -- GetEstimatedSize
  pub estimated_size : Item → ℕ
  estimated_size no_entries = 0
  estimated_size (entry key v rest) = calculate_size key v + estimated_size rest
