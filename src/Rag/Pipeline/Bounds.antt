-- ===== src/Rag/Pipeline/Bounds.antt =====
-- What Search (internal/rag/pipeline.go) gives under settings that LoadConfig (internal/engine) gives.
use mathlib.Core.Path.{subst}
use text.Mathlib.TextLemmas.{append_assoc}
use mcp_server_dynamodb_sage.Prelude.{
  ℕ, zero, suc, ◌≤◌, String, ◌≡◌, sym, ap, ◌∙◌, ◌⊎◌, inl, inr, false, List, [], ◌∷◌, All, length,
  length-take, take, ltb, ◌==◌, arith, str_append, Bool-cases,
}
use mcp_server_dynamodb_sage.Prelude.Int.{ℤ, pos, negsuc, pos_part}
use mcp_server_dynamodb_sage.Prelude.Float.{Float64}
use mcp_server_dynamodb_sage.Engine.Config.{RagConfig, load_rag_config, or_nonzero}
use mcp_server_dynamodb_sage.Rag.Pipeline.{
  Services, ScoredPoint, SearchResult, Found, found, search_failed, search_panics, is_below, kept,
  cut, searched, or_default, threshold_or, search_embedded, search, point_key,
}

-- No panic; and what is found is at most `most` results, none with a score below the threshold.
abbrev pub IsBounded : {F : Type 0} ⦃f : Float64 F⦄ → ℕ → F → Found F → Type 0
IsBounded most threshold (found rs) =
    (length rs ≤ most) × All (λ r. is_below r.score threshold ≡ false) rs
IsBounded most threshold (search_failed e) = Unit
IsBounded most threshold search_panics = ⊥

module _ {F : Type 0} ⦃f : Float64 F⦄ where
  kept-IsBelow :
      (threshold : F) (ps : List (ScoredPoint F))
      → All (λ r. is_below r.score threshold ≡ false) (kept threshold ps)
  unfolding kept
  kept-IsBelow threshold [] = tt
  kept-IsBelow threshold (p ∷ ps) = elim (Bool-cases (is_below p.score threshold)) [
    | inl low ↦ rw low (kept-IsBelow threshold ps)
    | inr high ↦ rw high (high, kept-IsBelow threshold ps)
  ]

  take-All :
      (P : SearchResult F → Type 0) (n : ℕ) (rs : List (SearchResult F))
      → All P rs
      → All P (take n rs)
  take-All P zero rs all = tt
  take-All P (suc n) [] all = tt
  take-All P (suc n) (r ∷ rs) all = (all.0, take-All P n rs all.1)

  cut-IsBounded :
      (k : ℕ) (threshold : F) (rs : List (SearchResult F))
      → All (λ r. is_below r.score threshold ≡ false) rs
      → IsBounded k threshold (cut (pos k) rs)
  unfolding cut
  cut-IsBounded k threshold rs all = elim (Bool-cases (ltb k (length rs))) [
    | inl more ↦ rw more (omega (arith, length-take k rs), take-All _ k rs all)
    | inr fits ↦ rw fits (ground arith, all)
  ]

or_default-pos : (n : ℤ) (m : ℕ) → or_default n (pos m) ≡ pos (pos_part (or_default n (pos m)))
or_default-pos (pos n) m = ground arith
or_default-pos (negsuc n) m = ground arith

or_nonzero-negsuc : (n m : ℕ) → or_nonzero (negsuc n) (pos m) ≡ negsuc n
or_nonzero-negsuc n m = ground arith

or_nonzero-pos : (n m : ℕ) → (k : ℕ) × (or_nonzero (pos n) (pos m) ≡ pos k)
or_nonzero-pos n m = elim (Bool-cases (n == 0)) [
  | inl unset ↦ (m, ground (arith, unset))
  | inr set ↦ (n, ground (arith, set))
]

module _ {E F : Type 0} ⦃f : Float64 F⦄ (s : Services E F) where
  searched-IsBounded :
      (k : ℕ) (threshold : F) (answer : List (ScoredPoint F) ⊎ String)
      → IsBounded k threshold (searched threshold (pos k) answer)
  searched-IsBounded k threshold (inl ps) =
      cut-IsBounded k threshold (kept threshold ps) (kept-IsBelow threshold ps)
  searched-IsBounded k threshold (inr e) = tt

  search_embedded-IsBounded :
      (collection : String) (top_k : ℤ) (threshold : F) (k : ℕ) (v : E ⊎ String)
      → IsBounded k threshold (search_embedded s collection top_k threshold (pos k) v)
  search_embedded-IsBounded collection top_k threshold k (inl v) =
      searched-IsBounded k threshold (s.search collection v top_k)
  search_embedded-IsBounded collection top_k threshold k (inr e) = tt

  -- Under the retrieval settings that LoadConfig makes of a file with a final count that is not
  -- negative, Search never panics, whatever its arguments are; what it finds is at most as many
  -- results as the final count says, its own if that is above 0 and else the settings', and none has
  -- a score below the threshold, which is found likewise.
  pub search-IsBounded :
      (r : RagConfig F) (n : ℕ) (collection query : String) (top_k : ℤ) (threshold : F)
      (final_k : ℤ)
      → r.retrieval.final_k ≡ pos n
      → let settings = (load_rag_config r).retrieval in
        IsBounded
          (pos_part (or_default final_k settings.final_k))
          (threshold_or threshold settings.score_threshold)
          (search s settings collection query top_k threshold final_k)
  unfolding search load_rag_config
  search-IsBounded r n collection query top_k threshold final_k set =
      let settings = (load_rag_config r).retrieval in
      let (k, loaded) = or_nonzero-pos n 4 in
      let is_pos : settings.final_k ≡ pos k = ap (λ x. or_nonzero x (pos 4)) set ∙ loaded in
      let least = threshold_or threshold settings.score_threshold in
      let count = or_default final_k settings.final_k in
      subst
        (λ x.
          IsBounded (pos_part count) least (
            search_embedded s collection (or_default top_k settings.top_k) least x (s.embed query)))
        (sym (
          subst (λ d. or_default final_k d ≡ pos (pos_part (or_default final_k d))) (sym is_pos)
            (or_default-pos final_k k)))
        (search_embedded-IsBounded collection (or_default top_k settings.top_k) least
          (pos_part count) (s.embed query))

  -- A negative final count in the file makes every search panic that leaves the count to the
  -- settings and whose embedding and search succeed.
  negative_final_count_panics :
      (r : RagConfig F) (n : ℕ) (collection query : String) (v : E) (top_k : ℤ) (threshold : F)
      (ps : List (ScoredPoint F))
      → r.retrieval.final_k ≡ negsuc n
      → s.embed query ≡ inl v
      → s.search collection v (or_default top_k (load_rag_config r).retrieval.top_k) ≡ inl ps
      → search s (load_rag_config r).retrieval collection query top_k threshold (pos 0)
        ≡ search_panics
  unfolding search load_rag_config cut
  negative_final_count_panics r n collection query v top_k threshold ps set embeds finds =
      let settings = (load_rag_config r).retrieval in
      let least = threshold_or threshold settings.score_threshold in
      ap (search_embedded s collection (or_default top_k settings.top_k) least settings.final_k)
        embeds
      ∙ ap (searched least settings.final_k) finds
      ∙ ap (λ k. cut k (kept least ps)) (ap (λ x. or_nonzero x (pos 4)) set ∙ or_nonzero-negsuc n 4)

-- The chunk of a field with index 10 has the same identity in the store as the chunk with index 0 of
-- a field of the same document whose name has a 1 behind it: one overwrites the other.
point_keys_collide :
    (document_id text_field : String)
    → point_key document_id (str_append text_field "1") 0 ≡ point_key document_id text_field 10
unfolding point_key
point_keys_collide d t =
    ap (λ x. str_append x "0") (sym (append_assoc d t "1")) ∙ append_assoc (str_append d t) "1" "0"
