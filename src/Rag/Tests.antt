-- ===== src/Rag/Tests.antt =====
-- The settings of internal/engine/config.go in internal/rag/chunker.go, at a concrete configuration.
use mcp_server_dynamodb_sage.Prelude.{
  ℕ, ◌≡◌, refl, true, List, [], ◌∷◌, none, some, inl, contains, replicate,
}
use mcp_server_dynamodb_sage.Prelude.Int.{pos, negsuc, pos_part}
use mcp_server_dynamodb_sage.Prelude.Decimals.{decimals}
use mcp_server_dynamodb_sage.Engine.Config.{RagConfig, load_rag_config}
use mcp_server_dynamodb_sage.Rag.Pipeline.{
  Services, ScoredPoint, or_default, threshold_or, search, ensure_collection,
}
use mcp_server_dynamodb_sage.Rag.Pipeline.Bounds.{IsBounded, search-IsBounded}

-- Chunks of 30 words, and no overlap set.
abbrev small_chunks : RagConfig (ℕ × ℕ)
small_chunks = record {
  enabled = true;
  embedding = record { provider = ""; model = ""; dimensions = pos 0 };
  chunking = record { max_tokens = pos 30; overlap = pos 0 };
  vector_db = record { provider = ""; host = ""; port = pos 0 };
  retrieval = record { top_k = pos 0; score_threshold = (0, 0); final_k = pos 0 };
}

abbrev words : List ℕ
words = replicate 60 7

abbrev good : ScoredPoint (ℕ × ℕ)
good = record { score = (9, 1); payload = ("chunk", "a") ∷ [] }

abbrev bad : ScoredPoint (ℕ × ℕ)
bad = record { score = (5, 1); payload = [] }

-- A store with two points, one of them below the default threshold of 0.75.
abbrev services : Services ℕ (ℕ × ℕ)
services = record {
  embed = λ text. inl 1;
  embed_batch = λ texts. inl [];
  dimensions = pos 1536;
  search = λ collection v k. inl (good ∷ bad ∷ []);
  upsert = λ collection ps. none;
  create_collection = λ collection n. some "collection already exists";
  hash_key = λ s. 0;
}

search-IsBounded_example :
    let settings = (load_rag_config small_chunks).retrieval in
    IsBounded
      (pos_part (or_default (pos 0) settings.final_k))
      (threshold_or (0, 0) settings.score_threshold)
      (search services settings "docs" "q" (pos 0) (0, 0) (pos 0))
search-IsBounded_example =
    search-IsBounded services small_chunks 0 "docs" "q" (pos 0) (0, 0) (pos 0) refl

abbrev negative_count : RagConfig (ℕ × ℕ)
negative_count = record small_chunks {
  retrieval = record { top_k = pos 0; score_threshold = (0, 0); final_k = negsuc 0 };
}

existing_collection : ensure_collection services "docs" ≡ none
unfolding ensure_collection contains
existing_collection = refl
