-- ===== src/Rag/Chunker/Tests.antt =====
-- Chunks of internal/rag/chunker.go at concrete settings.
use mcp_server_dynamodb_sage.Prelude.{
  ℕ, ◌≡◌, refl, suc, String, List, [], ◌∷◌, length, All, arith, str_eq,
}
use mcp_server_dynamodb_sage.Rag.Chunker.{
  Chunker, Chunks, done, panic, slice, chunk_from, chunk_words, fields, join, chunk,
}
use mcp_server_dynamodb_sage.Rag.Chunker.Cover.{settings, glue, IsSized, chunk_words_covers}

-- Opens all that a run calls.
run : Chunker → String → Chunks String
unfolding chunk chunk_words chunk_from slice fields join str_eq
run = chunk

chunk_overlaps : chunk (settings 3 1) " a b  c d e " ≡ done ("a b c" ∷ "c d e" ∷ "e" ∷ [])
unfolding run
chunk_overlaps = refl

chunk_panics : chunk (settings 2 3) "a b c d" ≡ panic
unfolding run
chunk_panics = refl

abbrev five : List ℕ
five = 1 ∷ 2 ∷ 3 ∷ 4 ∷ 5 ∷ []

chunk_words_covers_example :
    (cs : List (List ℕ)) × (chunk_words (suc (length five)) (settings 3 1) five ≡ done cs)
    × (glue 1 cs ≡ five)
    × All (IsSized 3) cs
chunk_words_covers_example = chunk_words_covers 3 1 (omega arith) five
