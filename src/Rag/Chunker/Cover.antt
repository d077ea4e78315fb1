-- ===== src/Rag/Chunker/Cover.antt =====
-- With an overlap below the size of a chunk, the chunks of internal/rag/chunker.go cover the text.
use native.Mathlib.Nat.{zero-add, suc-add}
use native.Mathlib.Decide.{dec_lt}
use mcp_server_dynamodb_sage.Prelude.{
  ℕ, zero, suc, ◌+◌, ◌-◌, ◌≤◌, ◌<◌, ◌≡◌, refl, sym, ap, ◌∙◌, List, [], ◌∷◌, ◌++◌, length, take,
  drop, take-append-drop, length-drop, length-take, All, arith, leb, if◌then◌else◌,
}
use mcp_server_dynamodb_sage.Prelude.Int.{pos, ◌+ℤ◌, ◌-ℤ◌}
use mcp_server_dynamodb_sage.Rag.Chunker.{
  Chunker, done, add_chunk, slice, end_of, chunk_from, chunk_words,
}

module _ {A : Type 0} where
  take_all : (n : ℕ) (xs : List A) → length xs ≤ n → take n xs ≡ xs
  take_all zero [] h = refl
  take_all zero (x ∷ xs) h = absurd (omega arith)
  take_all (suc n) [] h = refl
  take_all (suc n) (x ∷ xs) h = ap (λ r. x ∷ r) (take_all n xs (omega arith))

  drop_all : (n : ℕ) (xs : List A) → length xs ≤ n → drop n xs ≡ []
  drop_all zero [] h = refl
  drop_all zero (x ∷ xs) h = absurd (omega arith)
  drop_all (suc n) [] h = refl
  drop_all (suc n) (x ∷ xs) h = drop_all n xs (omega arith)

  drop-nil : (n : ℕ) → drop {A = A} n [] ≡ []
  drop-nil zero = refl
  drop-nil (suc n) = refl

  drop-drop : (j i : ℕ) (xs : List A) → drop j (drop i xs) ≡ drop (i + j) xs
  drop-drop j zero xs = rw zero-add
  drop-drop j (suc i) [] = rw suc-add (drop-nil j)
  drop-drop j (suc i) (x ∷ xs) = rw suc-add (drop-drop j i xs)

  drop-take : (o k : ℕ) (xs : List A) → o ≤ k → drop o (take k xs) ++ drop k xs ≡ drop o xs
  drop-take zero k xs h = take-append-drop k xs
  drop-take (suc o) zero xs h = absurd (omega arith)
  drop-take (suc o) (suc k) [] h = refl
  drop-take (suc o) (suc k) (x ∷ xs) h = drop-take o k xs (omega arith)

  -- The chunks after the first, each without the words that it shares with the one before.
  abbrev pub tails : ℕ → List (List A) → List A
  tails o [] = []
  tails o (c ∷ cs) = drop o c ++ tails o cs

  abbrev pub glue : ℕ → List (List A) → List A
  glue o [] = []
  glue o (c ∷ cs) = c ++ tails o cs

abbrev pub settings : ℕ → ℕ → Chunker
settings k o = record { max_tokens = pos k; overlap = pos o }

-- A chunk has some word, and no more words than asked for.
abbrev pub IsSized : {A : Type 0} → ℕ → List A → Type 0
IsSized k c = (1 ≤ length c) × (length c ≤ k)

step_lem : (i k o : ℕ) → o < k → pos i +ℤ (pos k -ℤ pos o) ≡ pos (i + (k - o))
step_lem i k o h = ground arith

module _ {A : Type 0} (words : List A) (i k : ℕ) (inside : i < length words) where
  end_cut : length words < i + k → end_of words (pos i) (pos k) ≡ pos (length words)
  end_cut h = ground arith

  end_whole : i + k ≤ length words → end_of words (pos i) (pos k) ≡ pos (i + k)
  end_whole h = ground arith

  slice_nat :
      (e : ℕ)
      → i ≤ e
      → e ≤ length words
      → slice words (pos i) (pos e) ≡ done (take (e - i) (drop i words))
  unfolding slice
  slice_nat e h h' = ground arith

  pub slice_lem : slice words (pos i) (end_of words (pos i) (pos k)) ≡ done (take k (drop i words))
  slice_lem = elim (dec_lt (length words) (i + k)) [
    | yes cut ↦
        ap (slice words (pos i)) (end_cut cut)
        ∙ slice_nat (length words) (omega arith) (omega arith)
        ∙ ap done (
            take_all (length words - i) (drop i words) (omega (arith, length-drop i words))
            ∙ sym (take_all k (drop i words) (omega (arith, length-drop i words))))
    | no whole ↦
        ap (slice words (pos i)) (end_whole (omega arith))
        ∙ slice_nat (i + k) (omega arith) (omega arith)
        ∙ ap (λ m. done (take m (drop i words))) (omega arith)
  ]

module _ {A : Type 0} (k o : ℕ) (below : o < k) where
  round_lem :
      (fuel : ℕ) (words : List A) (i : ℕ)
      → i < length words
      → chunk_from (suc fuel) (settings k o) words (pos i)
        ≡ add_chunk (take k (drop i words)) (
            if leb (length words) (i + o)
            then done []
            else chunk_from fuel (settings k o) words (pos (i + (k - o))))
  unfolding chunk_from
  round_lem fuel words i h = rw (slice_lem words i k h, step_lem i k o below) (ground arith)

  take-IsSized : (words : List A) (i : ℕ) → i < length words → IsSized k (take k (drop i words))
  take-IsSized words i h = (
    omega (arith, length-take k (drop i words), length-drop i words),
    omega (arith, length-take k (drop i words)),
  )

  -- What the loop gives from a word inside the text on.
  abbrev CoversFrom : ℕ → List A → ℕ → Type 0
  CoversFrom fuel words i =
      (r : List (List A)) × (chunk_from fuel (settings k o) words (pos i)
        ≡ done (take k (drop i words) ∷ r))
      × (tails o r ≡ drop k (drop i words))
      × All (IsSized k) r

  last_chunk :
      (fuel : ℕ) (words : List A) (i : ℕ)
      → i < length words
      → length words ≤ i + o
      → CoversFrom (suc fuel) words i
  last_chunk fuel words i h final = (
    [],
    round_lem fuel words i h ∙ ground arith,
    sym (drop_all k (drop i words) (omega (arith, length-drop i words))),
    tt,
  )

  -- Where the next chunk would begin past the last word, this one is the last.
  chunk_from_past :
      (fuel : ℕ) (words : List A) (i : ℕ)
      → 0 < fuel
      → length words ≤ i
      → chunk_from fuel (settings k o) words (pos i) ≡ done []
  unfolding chunk_from
  chunk_from_past zero words i h past = absurd (omega arith)
  chunk_from_past (suc fuel) words i h past = ground arith

  past_chunk :
      (fuel : ℕ) (words : List A) (i : ℕ)
      → i < length words
      → 0 < fuel
      → length words ≤ i + (k - o)
      → CoversFrom (suc fuel) words i
  past_chunk fuel words i h some_fuel past = (
    [],
    round_lem fuel words i h ∙ ground (arith, chunk_from_past fuel words (i + (k - o))),
    sym (drop_all k (drop i words) (omega (arith, length-drop i words))),
    tt,
  )

  -- The next chunk goes on where this one ends, once the shared words are dropped.
  next_chunk :
      (words : List A) (i : ℕ)
      → drop o (take k (drop (i + (k - o)) words)) ++ drop k (drop (i + (k - o)) words)
        ≡ drop k (drop i words)
  next_chunk words i =
      drop-take o k (drop (i + (k - o)) words) (omega arith)
      ∙ drop-drop o (i + (k - o)) words
      ∙ ap (λ m. drop m words) (omega arith)
      ∙ sym (drop-drop k i words)

  chunk_from-covers :
      (fuel : ℕ) (words : List A) (i : ℕ)
      → i < length words
      → length words - i < fuel
      → CoversFrom fuel words i
  chunk_from-covers zero words i h enough = absurd (omega arith)
  chunk_from-covers (suc fuel) words i h enough = elim (dec_lt (i + o) (length words)) [
    | no final ↦ last_chunk fuel words i h (omega arith)
    | yes more ↦ elim (dec_lt (i + (k - o)) (length words)) [
      | no past ↦ past_chunk fuel words i h (omega arith) (omega arith)
      | yes inside ↦
          let (r, e, t, s) = chunk_from-covers fuel words (i + (k - o)) inside (omega arith) in
          (
            take k (drop (i + (k - o)) words) ∷ r,
            round_lem fuel words i h ∙ rw e (ground arith),
            rw t (next_chunk words i),
            (take-IsSized words (i + (k - o)) inside, s),
          )
    ]
  ]

  -- With an overlap that is not negative and below the size of a chunk, one round of fuel more than
  -- there are words is enough, and no slice is out of range: the result is a list of chunks. Each
  -- has between one word and as many words as asked for; and the first chunk followed by the
  -- others, each without as many of its first words as the overlap says, is the whole text.
  pub chunk_words_covers :
      (words : List A)
      → (cs : List (List A)) × (chunk_words (suc (length words)) (settings k o) words ≡ done cs)
        × (glue o cs ≡ words)
        × All (IsSized k) cs
  unfolding chunk_words
  chunk_words_covers [] = ([], refl, refl, tt)
  chunk_words_covers (w ∷ words) =
      let text : List A = w ∷ words in
      let (r, e, t, s) = chunk_from-covers (suc (length text)) text 0 (omega arith) (omega arith) in
      (take k text ∷ r, e, rw t (take-append-drop k text), (take-IsSized text 0 (omega arith), s))
