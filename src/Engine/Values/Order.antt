-- ===== src/Engine/Values/Order.antt =====
-- A Go map is visited in any order: the estimated size of an item does not depend on it.
use mathlib.Core.List.{Perm, Permᴰ}
use mathlib.Core.Logic.{∥∥₁_elim}
use native.Mathlib.Nat.{ℕ_set}
use mcp_server_dynamodb_sage.Prelude.{
  ℕ, String, ◌≡◌, refl, ap, ◌∙◌, sym, List, [], ◌∷◌, map, sum, arith,
}
use mcp_server_dynamodb_sage.Engine.Values.{
  AttributeValue, Item, no_entries, entry, calculate_size, estimated_size,
}

abbrev pub entries : Item → List (String × AttributeValue)
entries no_entries = []
entries (entry k v rest) = (k, v) ∷ entries rest

abbrev pub entry_size : String × AttributeValue → ℕ
entry_size (k, v) = calculate_size k v

estimated_size-eq-sum : (item : Item) → estimated_size item ≡ sum (map entry_size (entries item))
unfolding estimated_size
estimated_size-eq-sum no_entries = refl
estimated_size-eq-sum (entry k v rest) = omega (arith, estimated_size-eq-sum rest)

sum-map_perm :
    {xs ys : List (String × AttributeValue)}
    → Permᴰ xs ys
    → sum (map entry_size xs) ≡ sum (map entry_size ys)
sum-map_perm Permᴰ.nil = refl
sum-map_perm (Permᴰ.cons e p) = omega (arith, ap entry_size e, sum-map_perm p)
sum-map_perm (Permᴰ.swap e f) = omega (arith, ap entry_size e, ap entry_size f)
sum-map_perm (Permᴰ.trans p q) = sum-map_perm p ∙ sum-map_perm q

-- Two items with the same fields, visited in different orders, have the same estimated size.
estimated_size_perm :
    (x y : Item) → Perm (entries x) (entries y) → estimated_size x ≡ estimated_size y
estimated_size_perm x y p =
    estimated_size-eq-sum x ∙ ∥∥₁_elim p (ℕ_set _ _) sum-map_perm ∙ sym (estimated_size-eq-sum y)
