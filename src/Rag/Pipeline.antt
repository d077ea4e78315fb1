-- ===== src/Rag/Pipeline.antt =====
-- internal/rag/pipeline.go. The embedder, the vector store and SHA-256 are parameters; a vector is
-- given by the embedder, and its narrowing to float32 is left out. An error is its text.
pub mod Bounds
use Prim.Native.String.{slice}
use mcp_server_dynamodb_sage.Prelude.{
  ℕ, zero, suc, ◌+◌, ◌/◌, ◌%◌, String, Bool, true, false, not, ◌&&◌, Option, none, some, List, [],
  ◌∷◌, Assoc, lookup, length, take, ltb, str_append, contains, if◌then◌else◌, ◌⊎◌, inl, inr,
}
use mcp_server_dynamodb_sage.Prelude.Int.{ℤ, pos, negsuc, leb_ℤ, ltb_ℤ}
use mcp_server_dynamodb_sage.Prelude.Float.{Float64, not_positive}
use mcp_server_dynamodb_sage.Engine.Config.{RetrievalConfig}
use mcp_server_dynamodb_sage.Rag.Chunker.{Chunker, Chunks, done, panic, out_of_fuel, chunk}

-- A point that the store holds, and one that a search gives.
pub record Point (E : Type 0) : Type 0 where
  pub id : ℕ
  pub vector : E
  pub payload : Assoc String

pub record ScoredPoint (F : Type 0) : Type 0 where
  pub score : F
  pub payload : Assoc String

pub record SearchResult (F : Type 0) : Type 0 where
  pub chunk : String
  pub source : String
  pub document : String
  pub score : F

-- The services, each of which answers or fails.
pub record Services (E F : Type 0) : Type 0 where
  pub embed : String → E ⊎ String
  pub embed_batch : List String → List E ⊎ String
  pub dimensions : ℤ
  pub search : String → E → ℤ → List (ScoredPoint F) ⊎ String
  pub upsert : String → List (Point E) → Option String
  pub create_collection : String → ℤ → Option String
  pub hash_key : String → ℕ

-- payload[key], which is the empty text for a key that is missing
abbrev pub text_of : Option String → String
text_of none = ""
text_of (some s) = s

abbrev pub digit : ℕ → String
digit d = slice "0123456789" d (d + 1)

-- strconv.Itoa on a number from 0 on; a number has no more digits than one more than itself.
unfoldable pub itoa_from : ℕ → ℕ → String
itoa_from zero n = ""
itoa_from (suc fuel) n =
    let rest = itoa_from fuel (n / 10) in
    if ltb n 10 then digit n else str_append rest (digit (n % 10))

unfoldable pub itoa : ℕ → String
unfolding itoa_from
itoa n = itoa_from (suc n) n

-- What a point's identity is the hash of.
unfoldable pub point_key : (document_id text_field : String) → ℕ → String
unfolding itoa
point_key document_id text_field i = str_append (str_append document_id text_field) (itoa i)

pub data Processed : Type 0 where
  stored : Processed
  process_failed : String → Processed
  process_panics : Processed

pub data Found (F : Type 0) : Type 0 where
  found : List (SearchResult F) → Found F
  search_failed : String → Found F
  search_panics : Found F

module _ {E F : Type 0} (s : Services E F) where
  abbrev pub point_of : (collection document_id text_field : String) → ℕ → String → E → Point E
  point_of collection document_id text_field i text v = record {
    id = s.hash_key (point_key document_id text_field i);
    vector = v;
    payload = ("chunk", text) ∷ ("source", collection) ∷ ("document", document_id) ∷ [];
  }

  abbrev pub add_point : Point E → Option (List (Point E)) → Option (List (Point E))
  add_point p none = none
  add_point p (some ps) = some (p ∷ ps)

  -- The loop over the chunks from the i-th on. There is no result when an embedding is missing, which
  -- is a panic.
  unfoldable pub points :
      (collection document_id text_field : String)
      → ℕ
      → List String
      → List E
      → Option (List (Point E))
  unfolding point_key
  points c d t i [] vs = some []
  points c d t i (x ∷ xs) [] = none
  points c d t i (x ∷ xs) (v ∷ vs) = add_point (point_of c d t i x v) (points c d t (suc i) xs vs)

  abbrev pub upserted : Option String → Processed
  upserted none = stored
  upserted (some e) = process_failed e

  abbrev pub upsert_points : String → Option (List (Point E)) → Processed
  upsert_points collection none = process_panics
  upsert_points collection (some ps) = upserted (s.upsert collection ps)

  abbrev pub process_chunks :
      (collection document_id text_field : String) → Chunks String → Processed
  process_chunks c d t (done xs) = elim (s.embed_batch xs) [
    | inr e ↦ process_failed e
    | inl vs ↦ upsert_points c (points c d t 0 xs vs)
  ]
  process_chunks c d t panic = process_panics
  process_chunks c d t out_of_fuel = process_panics

  -- ProcessDocument. Chunk never runs out of fuel.
  unfoldable pub process_document :
      Chunker → (collection document_id text_field document : String) → Processed
  unfolding points chunk
  process_document chunker collection document_id text_field document =
      process_chunks collection document_id text_field (chunk chunker document)

  abbrev pub created : Option String → Option String
  created none = none
  created (some e) = if contains e "already exists" then none else some e

  unfoldable pub ensure_collection : String → Option String
  ensure_collection collection = created (s.create_collection collection s.dimensions)

abbrev pub or_default : ℤ → ℤ → ℤ
or_default n default = if leb_ℤ n (pos 0) then default else n

module _ {F : Type 0} ⦃f : Float64 F⦄ where
  -- x < y
  abbrev pub is_below : F → F → Bool
  is_below x y = f.le x y && not (f.eq x y)

  abbrev pub result_of : ScoredPoint F → SearchResult F
  result_of p = record {
    chunk = text_of (lookup "chunk" p.payload);
    source = text_of (lookup "source" p.payload);
    document = text_of (lookup "document" p.payload);
    score = p.score;
  }

  -- The loop over the results.
  unfoldable pub kept : F → List (ScoredPoint F) → List (SearchResult F)
  kept threshold [] = []
  kept threshold (p ∷ ps) =
      let rest = kept threshold ps in
      if is_below p.score threshold then rest else result_of p ∷ rest

  -- filtered[:finalK], if there are more
  unfoldable pub cut : ℤ → List (SearchResult F) → Found F
  cut (pos k) rs = found (if ltb k (length rs) then take k rs else rs)
  cut (negsuc k) rs = search_panics

  abbrev pub searched : F → ℤ → List (ScoredPoint F) ⊎ String → Found F
  searched threshold final_k (inl ps) = cut final_k (kept threshold ps)
  searched threshold final_k (inr e) = search_failed e

  abbrev pub threshold_or : F → F → F
  threshold_or x default = if not_positive x then default else x

module _ {E F : Type 0} ⦃f : Float64 F⦄ (s : Services E F) where
  abbrev pub search_embedded : String → (top_k : ℤ) → F → (final_k : ℤ) → E ⊎ String → Found F
  search_embedded collection top_k threshold final_k (inr e) = search_failed e
  search_embedded collection top_k threshold final_k (inl v) =
      searched threshold final_k (s.search collection v top_k)

  unfoldable pub search :
      RetrievalConfig F → (collection query : String) → (top_k : ℤ) → F → (final_k : ℤ) → Found F
  unfolding kept cut
  search r collection query top_k threshold final_k =
      search_embedded collection (or_default top_k r.top_k)
        (threshold_or threshold r.score_threshold) (or_default final_k r.final_k) (s.embed query)
