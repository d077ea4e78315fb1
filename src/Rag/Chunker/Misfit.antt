-- ===== src/Rag/Chunker/Misfit.antt =====
-- The settings that internal/rag/chunker.go does not check.
use native.Mathlib.Decide.{dec_lt}
use mcp_server_dynamodb_sage.Prelude.{
  ℕ, zero, suc, ◌+◌, ◌-◌, ◌≤◌, ◌<◌, ◌≡◌, ◌≢◌, refl, List, [], ◌∷◌, length, take, arith, ap, ◌∙◌,
  true,
}
use mathlib.Core.Path.{subst, sym}
use mcp_server_dynamodb_sage.Prelude.Int.{ℤ, eqb_ℤ, pos, negsuc, ◌+ℤ◌, ◌-ℤ◌}
use mcp_server_dynamodb_sage.Rag.Chunker.{
  Chunker, Chunks, done, panic, out_of_fuel, slice, end_of, chunk_from, chunk_words,
}
use mcp_server_dynamodb_sage.Rag.Chunker.Cover.{settings, slice_lem}

back_step : (k o : ℕ) → k < o → pos 0 +ℤ (pos k -ℤ pos o) ≡ negsuc (o - k - 1)
back_step k o h = ground arith

forward_step : (i d : ℕ) → pos i +ℤ pos (suc d) ≡ pos (i + suc d)
forward_step i d = ground arith

first_step : (j : ℕ) → pos 0 +ℤ negsuc j ≡ negsuc j
first_step j = ground arith

zero_diff : (a b : ℤ) → a -ℤ b ≡ pos 0 → eqb_ℤ a b ≡ true
zero_diff a b h = ground arith

module _ {A : Type 0} where
  -- With the overlap as large as a chunk, the words after the first chunk are in no chunk.
  equal_overlap_loses :
      (k : ℕ) (words : List A)
      → k < length words
      → chunk_words (suc (length words)) (settings k k) words ≡ done (take k words ∷ [])
  unfolding chunk_words chunk_from
  equal_overlap_loses k [] h = absurd (omega arith)
  equal_overlap_loses k (w ∷ words) h = rw (slice_lem (w ∷ words) 0 k (omega arith)) (ground arith)

  slice-negsuc : (words : List A) (j : ℕ) (e : ℤ) → slice words (negsuc j) e ≡ panic
  unfolding slice
  slice-negsuc words j (pos e) = refl
  slice-negsuc words j (negsuc e) = refl

  -- A round that begins before the first word panics, as it slices there.
  negative_round :
      (fuel : ℕ) (c : Chunker) (words : List A) (j : ℕ)
      → chunk_from (suc fuel) c words (negsuc j) ≡ panic
  unfolding chunk_from
  negative_round fuel c words j =
      rw (slice-negsuc words j (end_of words (negsuc j) c.max_tokens)) (ground arith)

  -- With an overlap above the size of a chunk, a text of more words than the overlap panics.
  pub large_overlap_panics :
      (k o : ℕ) (words : List A)
      → k < o
      → o < length words
      → chunk_words (suc (length words)) (settings k o) words ≡ panic
  unfolding chunk_words chunk_from
  large_overlap_panics k o [] h h' = absurd (omega arith)
  large_overlap_panics k o (w ∷ words) h h' =
      rw (slice_lem (w ∷ words) 0 k (omega arith), back_step k o h)
        (ground (arith, negative_round (length words) (settings k o) (w ∷ words) (o - k - 1)))

  abbrev pub Ends : Chunks (List A) → Type 0
  Ends r = r ≢ out_of_fuel

  slice_ends : (words : List A) (i e : ℤ) → slice words i e ≢ out_of_fuel
  unfolding slice
  slice_ends words (pos i) (pos e) = ground arith
  slice_ends words (pos i) (negsuc e) = ground arith
  slice_ends words (negsuc i) e = rw (slice-negsuc words i e) (ground arith)

  -- One round ends if the rest of the rounds, where there is one, does.
  round-Ends :
      (fuel : ℕ) (c : Chunker) (words : List A) (i : ℤ)
      → Ends (chunk_from fuel c words (i +ℤ (c.max_tokens -ℤ c.overlap)))
      → Ends (chunk_from (suc fuel) c words i)
  unfolding chunk_from
  round-Ends fuel c words i rest = ground (arith, slice_ends words i (end_of words i c.max_tokens))

  past-Ends :
      (fuel : ℕ) (c : Chunker) (words : List A) (i : ℕ)
      → length words ≤ i
      → Ends (chunk_from (suc fuel) c words (pos i))
  unfolding chunk_from
  past-Ends fuel c words i h = ground arith

  stay-Ends :
      (fuel : ℕ) (c : Chunker) (words : List A) (i : ℤ)
      → eqb_ℤ c.max_tokens c.overlap ≡ true
      → Ends (chunk_from (suc fuel) c words i)
  unfolding chunk_from
  stay-Ends fuel c words i h = ground (arith, slice_ends words i (end_of words i c.max_tokens))

  negative-Ends :
      (fuel : ℕ) (c : Chunker) (words : List A) (j : ℕ)
      → Ends (chunk_from (suc fuel) c words (negsuc j))
  negative-Ends fuel c words j = ground (arith, negative_round fuel c words j)

  moved_to :
      (fuel : ℕ) (c : Chunker) (words : List A) {i j : ℤ}
      → i ≡ j
      → Ends (chunk_from fuel c words j)
      → Ends (chunk_from fuel c words i)
  moved_to fuel c words e = subst (λ t. Ends (chunk_from fuel c words t)) (sym e)

  -- Where the chunks move on, each round begins later than the one before.
  forward-Ends :
      (c : Chunker) (words : List A) (d fuel i : ℕ)
      → c.max_tokens -ℤ c.overlap ≡ pos (suc d)
      → length words - i < fuel
      → Ends (chunk_from fuel c words (pos i))
  forward-Ends c words d zero i e enough = absurd (omega arith)
  forward-Ends c words d (suc fuel) i e enough = elim (dec_lt i (length words)) [
    | no past ↦ past-Ends fuel c words i (omega arith)
    | yes inside ↦ round-Ends fuel c words (pos i) (
        moved_to fuel c words (ap (λ t. pos i +ℤ t) e ∙ forward_step i d)
          (forward-Ends c words d fuel (i + suc d) e (omega arith)))
  ]

  first-Ends :
      (c : Chunker) (w : A) (words : List A) (d : ℤ)
      → c.max_tokens -ℤ c.overlap ≡ d
      → Ends (chunk_from (suc (suc (length words))) c (w ∷ words) (pos 0))
  first-Ends c w words (pos zero) e =
      stay-Ends (suc (length words)) c (w ∷ words) (pos 0) (zero_diff c.max_tokens c.overlap e)
  first-Ends c w words (pos (suc d)) e = forward-Ends c (w ∷ words) d _ 0 e (omega arith)
  first-Ends c w words (negsuc j) e = round-Ends (suc (length words)) c (w ∷ words) (pos 0) (
      moved_to (suc (length words)) c (w ∷ words) (ap (λ t. pos 0 +ℤ t) e ∙ first_step j)
        (negative-Ends (length words) c (w ∷ words) j))

  -- Whatever the settings, negative ones included, as many rounds as there are words and one more
  -- are enough: the loop ends, with the chunks or in a panic.
  chunk_words-Ends :
      (c : Chunker) (words : List A) → Ends (chunk_words (suc (length words)) c words)
  unfolding chunk_words
  chunk_words-Ends c [] = λ h. cc
  chunk_words-Ends c (w ∷ words) = first-Ends c w words (c.max_tokens -ℤ c.overlap) refl
