-- ===== src/Rag/Chunker.antt =====
-- internal/rag/chunker.go: a document's words are cut into overlapping chunks. Both settings are
-- Go's `int`, so they may be negative; a slice outside the words is a panic.
pub mod Cover
pub mod Misfit
mod Tests
use Prim.Native.Char.{Char, code}
use Prim.Native.String.{◌++◌ as str_append}
use mcp_server_dynamodb_sage.Prelude.{
  ℕ, zero, suc, ◌-◌, String, Bool, true, false, ◌&&◌, ◌||◌, List, [], ◌∷◌, length, take, drop, map,
  is_space, if◌then◌else◌, ltb, str_eq,
}
use mcp_server_dynamodb_sage.Prelude.Int.{ℤ, pos, negsuc, ◌+ℤ◌, ◌-ℤ◌, leb_ℤ, ltb_ℤ, eqb_ℤ}

pub record Chunker : Type 0 where
  pub max_tokens : ℤ
  pub overlap : ℤ

pub data Chunks (A : Type 0) : Type 0 where
  done : List A → Chunks A
  panic : Chunks A
  out_of_fuel : Chunks A

abbrev pub add_chunk : {A : Type 0} → A → Chunks A → Chunks A
add_chunk c (done cs) = done (c ∷ cs)
add_chunk c panic = panic
add_chunk c out_of_fuel = out_of_fuel

-- words[i:end], whose capacity is its length; `done` holds the words of the slice
module _ {A : Type 0} where
  unfoldable pub slice : List A → ℤ → ℤ → Chunks A
  slice words (pos i) (pos e) =
      if ltb e i || ltb (length words) e then panic else done (take (e - i) (drop i words))
  slice words (pos i) (negsuc e) = panic
  slice words (negsuc i) (pos e) = panic
  slice words (negsuc i) (negsuc e) = panic

  abbrev pub end_of : List A → ℤ → ℤ → ℤ
  end_of words i size =
      if ltb_ℤ (pos (length words)) (i +ℤ size) then pos (length words) else i +ℤ size

  -- The chunk that a slice gives, before the rest of the chunks.
  abbrev pub then_chunks : Chunks A → Chunks (List A) → Chunks (List A)
  then_chunks (done ws) rest = add_chunk ws rest
  then_chunks panic rest = panic
  then_chunks out_of_fuel rest = out_of_fuel

  -- The loop of Chunk over the words, from `i`. A chunk is the list of its words, which the
  -- source joins by a space.
  unfoldable pub chunk_from : ℕ → Chunker → List A → ℤ → Chunks (List A)
  chunk_from zero c words i = out_of_fuel
  chunk_from (suc fuel) c words i =
      let rest = chunk_from fuel c words (i +ℤ (c.max_tokens -ℤ c.overlap)) in
      let after =
        if eqb_ℤ c.max_tokens c.overlap || leb_ℤ (pos (length words)) (i +ℤ c.overlap)
        then done []
        else rest in
      if ltb_ℤ i (pos (length words))
      then then_chunks (slice words i (end_of words i c.max_tokens)) after
      else done []

  -- Chunk after strings.Fields: no words, no chunks.
  unfoldable pub chunk_words : ℕ → Chunker → List A → Chunks (List A)
  chunk_words fuel c [] = done []
  chunk_words fuel c (w ∷ words) = chunk_from fuel c (w ∷ words) (pos 0)

-- strings.Fields, from its last character on: the word that the text begins with, and the others.
unfoldable pub fields_from : String → String × List String
fields_from String.[] = ("", [])
fields_from (String.◌∷◌ ch text) =
    let (word, rest) = fields_from text in
    if is_space (code ch)
    then ("", if str_eq word "" then rest else word ∷ rest)
    else (String.◌∷◌ ch word, rest)

unfoldable pub fields : String → List String
unfolding fields_from
fields text = let (word, rest) = fields_from text in if str_eq word "" then rest else word ∷ rest

-- strings.Join(words, " ")
unfoldable pub join : List String → String
join [] = ""
join (w ∷ []) = w
join (w ∷ v ∷ words) = str_append w (str_append " " (join (v ∷ words)))

abbrev pub map_chunks : {A B : Type 0} → (A → B) → Chunks A → Chunks B
map_chunks f (done cs) = done (map f cs)
map_chunks f panic = panic
map_chunks f out_of_fuel = out_of_fuel

-- Chunk, with one round of fuel more than there are words.
unfoldable pub chunk : Chunker → String → Chunks String
chunk c text = let words = fields text in map_chunks join (chunk_words (suc (length words)) c words)
