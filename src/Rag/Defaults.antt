-- ===== src/Rag/Defaults.antt =====
-- The chunking settings of internal/engine/config.go in internal/rag/chunker.go.
use mcp_server_dynamodb_sage.Prelude.{ℕ, suc, ◌≤◌, ◌<◌, ◌≡◌, List, length, arith}
use mcp_server_dynamodb_sage.Prelude.Int.{pos}
use mcp_server_dynamodb_sage.Prelude.Float.{Float64}
use mcp_server_dynamodb_sage.Engine.Config.{RagConfig, ChunkingConfig, load_rag_config, or_nonzero}
use mcp_server_dynamodb_sage.Rag.Chunker.{Chunker, panic, chunk_words}
use mcp_server_dynamodb_sage.Rag.Chunker.Misfit.{large_overlap_panics}

-- NewChunker
unfoldable pub new_chunker : ChunkingConfig → Chunker
new_chunker c = record { max_tokens = c.max_tokens; overlap = c.overlap }

set_size : (k : ℕ) → 1 ≤ k → or_nonzero (pos k) (pos 500) ≡ pos k
set_size k h = ground (arith, h)

-- Where the file asks for chunks of fewer than 50 words and sets no overlap, the default overlap of
-- 50 is above the size of a chunk, and a text of more than 50 words panics.
default_overlap_panics :
    {F A : Type 0} ⦃f : Float64 F⦄ (r : RagConfig F) (k : ℕ) (words : List A)
    → r.chunking.max_tokens ≡ pos k
    → r.chunking.overlap ≡ pos 0
    → 1 ≤ k
    → k < 50
    → 50 < length words
    → chunk_words (suc (length words)) (new_chunker (load_rag_config r).chunking) words ≡ panic
unfolding new_chunker load_rag_config
default_overlap_panics r k words size unset some_words few long =
    rw (size, unset, set_size k some_words) (large_overlap_panics k 50 words few long)
