-- ===== src/Prelude/Maps.antt =====
-- Go's maps with string keys, as association lists. A Go map visits its entries in any order: the
-- list is one of these orders.
use Prim.Native.String.{String}
use mathlib.Core.Path.{◌≡◌, refl, subst₂}
use mathlib.Core.Logic.{inl, inr}
use mathlib.Core.Option.{Option, none, some, some-injective, none-ne-some}
use mathlib.Core.List.{List, [], ◌∷◌}
use native.Mathlib.Omega.{arith}
use mcp_server_dynamodb_sage.Prelude.Tests.{if◌then◌else◌, Bool-cases}
use mcp_server_dynamodb_sage.Prelude.Lists.{All}
use mcp_server_dynamodb_sage.Prelude.Text.{str_eq, str_eq_iff}

abbrev pub Assoc {ℓ} : Type ℓ → Type ℓ
Assoc V = List (String × V)

module _ {ℓ} {V : Type ℓ} where
  -- m[k], with the second result as an option
  abbrev pub lookup : String → Assoc V → Option V
  lookup k [] = none
  lookup k ((j, v) ∷ m) = if str_eq j k then some v else lookup k m

  -- m[k] = v
  abbrev pub insert : String → V → Assoc V → Assoc V
  insert k v [] = (k, v) ∷ []
  insert k v ((j, w) ∷ m) = if str_eq j k then (k, v) ∷ m else (j, w) ∷ insert k v m

  pub lookup-insert :
      (k j : String) (v : V) (m : Assoc V)
      → lookup j (insert k v m) ≡ (if str_eq k j then some v else lookup j m)
  lookup-insert k j v [] = refl
  lookup-insert k j v ((i, w) ∷ m) =
      ground (arith, str_eq_iff k j, str_eq_iff i k, str_eq_iff i j, lookup-insert k j v m)

  -- What holds of every entry holds of what a lookup finds.
  pub lookup-All {κ} :
      (P : String → V → Type κ) (k : String) {v : V} (m : Assoc V)
      → lookup k m ≡ some v
      → All (λ e. P e.0 e.1) m
      → P k v
  lookup-All P k [] h all = absurd (none-ne-some _ h)
  lookup-All P k ((j, w) ∷ m) h all = elim (Bool-cases (str_eq j k)) [
    | inl same ↦ subst₂ P ((str_eq_iff j k).0 same) (some-injective _ _ (rw same at h)) all.0
    | inr other ↦ lookup-All P k m (rw other at h) all.1
  ]
