-- ===== src/Prelude/Chunks.antt =====
-- The loop `for i := 0; i < len(xs); i += n` over the slices xs[i:min(i+n, len(xs))]. It runs on fuel:
-- where n is not 0, one round more than there are elements is enough.
use Prim.Native.Nat.{ℕ, zero, suc, ◌≤◌, ◌<◌}
use mathlib.Core.Path.{◌≡◌, refl, ap, ◌∙◌}
use mathlib.Core.List.{List, [], ◌∷◌, ◌++◌}
use native.Mathlib.Omega.{arith}
use mcp_server_dynamodb_sage.Prelude.Lists.{
  length, take, drop, All, length-take, length-drop, take-append-drop,
}

module _ {A : Type 0} where
  unfoldable pub chunks : ℕ → ℕ → List A → List (List A)
  chunks zero n xs = []
  chunks (suc fuel) n [] = []
  chunks (suc fuel) n (x ∷ xs) = take n (x ∷ xs) ∷ chunks fuel n (drop n (x ∷ xs))

  abbrev pub concat : List (List A) → List A
  concat [] = []
  concat (b ∷ bs) = b ++ concat bs

  -- At least one element, and at most `n`.
  abbrev pub IsChunk : ℕ → List A → Type 0
  IsChunk n b = (1 ≤ length b) × (length b ≤ n)

  pub chunks_cover :
      (n fuel : ℕ) (xs : List A)
      → 1 ≤ n
      → length xs < fuel
      → (concat (chunks fuel n xs) ≡ xs) × All (IsChunk n) (chunks fuel n xs)
  unfolding chunks
  chunks_cover n zero xs h enough = absurd (omega (arith, enough))
  chunks_cover n (suc fuel) [] h enough = (refl, tt)
  chunks_cover n (suc fuel) (x ∷ xs) h enough =
      let (whole, sized) =
        chunks_cover n fuel (drop n (x ∷ xs)) h
          (omega (arith, length-drop n (x ∷ xs), enough, h)) in
      (
        ap (λ r. take n (x ∷ xs) ++ r) whole ∙ take-append-drop n (x ∷ xs),
        ((omega (arith, length-take n (x ∷ xs), h), omega (arith, length-take n (x ∷ xs))), sized),
      )
