-- ===== src/Engine/Config/Limits.antt =====
-- What holds of a configuration that LoadConfig (internal/engine/config.go) returns.
use mcp_server_dynamodb_sage.Prelude.{
  List, Assoc, String, ◌≡◌, refl, false, some, [], ◌∷◌, arith, str_eq, ◌≢◌,
}
use mathlib.Core.Path.{subst}
use mathlib.Core.Option.{some-injective}
use mcp_server_dynamodb_sage.Prelude.Int.{pos, ◌≤ℤ◌, eqb_ℤ}
use mcp_server_dynamodb_sage.Prelude.Float.{Float64, not_positive, is_zero}
use mcp_server_dynamodb_sage.Engine.Config.{
  GlobalLimits, RiskThresholds, RagConfig, AppConfig, ConfigFile, unreadable, malformed, decoded,
  fill_limits, fill_thresholds, load_rag_config, fill_defaults, load_config, or_nonempty, fill_tags,
}

pub record LimitsUsable (g : GlobalLimits) : Type 0 where
  pub default_positive : pos 1 ≤ℤ g.default_limit
  pub default_le_max : g.default_limit ≤ℤ g.max_limit
  pub max_le_cap : g.max_limit ≤ℤ pos 100

module _ {F : Type 0} ⦃f : Float64 F⦄ where
  pub record ThresholdsUsable (t : RiskThresholds F) : Type 0 where
    pub size_positive : not_positive t.table_size_mb ≡ false
    pub cost_positive : not_positive t.scan_cost_usd ≡ false
    pub delete_positive : pos 1 ≤ℤ t.batch_delete_count
    pub get_positive : pos 1 ≤ℤ t.batch_get_count
    pub put_positive : pos 1 ≤ℤ t.batch_put_count
    pub increase_positive : pos 1 ≤ℤ t.max_throughput_increase
    pub depth_positive : pos 1 ≤ℤ t.update_expression_depth

  pub record RagUsable (r : RagConfig F) : Type 0 where
    pub embedder_named : str_eq r.embedding.provider "" ≡ false
    pub model_named : str_eq r.embedding.model "" ≡ false
    pub dimensions_set : eqb_ℤ r.embedding.dimensions (pos 0) ≡ false
    pub max_tokens_set : eqb_ℤ r.chunking.max_tokens (pos 0) ≡ false
    pub overlap_set : eqb_ℤ r.chunking.overlap (pos 0) ≡ false
    pub store_named : str_eq r.vector_db.provider "" ≡ false
    pub host_named : str_eq r.vector_db.host "" ≡ false
    pub port_set : eqb_ℤ r.vector_db.port (pos 0) ≡ false
    pub top_k_set : eqb_ℤ r.retrieval.top_k (pos 0) ≡ false
    pub score_set : is_zero r.retrieval.score_threshold ≡ false
    pub final_k_set : eqb_ℤ r.retrieval.final_k (pos 0) ≡ false

  pub record IsUsable (c : AppConfig F) : Type 0 where
    pub limits : LimitsUsable c.global_limits
    pub thresholds : ThresholdsUsable c.risk_thresholds
    pub rag_set : RagUsable c.rag
    pub tags_set : c.protected_tags ≢ []

pub fill_limits-LimitsUsable : (g : GlobalLimits) → LimitsUsable (fill_limits g)
unfolding fill_limits
fill_limits-LimitsUsable g = ground arith

fill_limits_keeps : (g : GlobalLimits) → LimitsUsable g → fill_limits g ≡ g
unfolding fill_limits
fill_limits_keeps g u = ground arith

or_nonempty_set : (s d : String) → str_eq d "" ≡ false → str_eq (or_nonempty s d) "" ≡ false
or_nonempty_set s d h = ground arith

fill_tags_set : (m : Assoc (List String)) → fill_tags m ≢ []
fill_tags_set [] h = cc
fill_tags_set (e ∷ m) h = cc

fill_tags_keeps : (m : Assoc (List String)) → m ≢ [] → fill_tags m ≡ m
fill_tags_keeps [] h = absurd (h refl)
fill_tags_keeps (e ∷ m) h = refl

module _ {F : Type 0} ⦃f : Float64 F⦄ where
  fill_thresholds_usable : (t : RiskThresholds F) → ThresholdsUsable (fill_thresholds t)
  unfolding fill_thresholds
  fill_thresholds_usable t = record {
    size_positive = ground (arith, f.pos-not_le 10 0 (omega arith));
    cost_positive = ground (arith, f.pos-not_le 5 2 (omega arith));
    delete_positive = ground arith;
    get_positive = ground arith;
    put_positive = ground arith;
    increase_positive = ground arith;
    depth_positive = ground arith;
  }

  load_rag_config_usable : (r : RagConfig F) → RagUsable (load_rag_config r)
  unfolding load_rag_config str_eq
  load_rag_config_usable r = record {
    embedder_named = or_nonempty_set r.embedding.provider "openai" refl;
    model_named = or_nonempty_set r.embedding.model "text-embedding-3-small" refl;
    dimensions_set = ground arith;
    max_tokens_set = ground arith;
    overlap_set = ground arith;
    store_named = or_nonempty_set r.vector_db.provider "openai" refl;
    host_named = or_nonempty_set r.vector_db.host "localhost" refl;
    port_set = ground arith;
    top_k_set = ground arith;
    score_set = ground (arith, f.pos-not_eq 75 2 (omega arith));
    final_k_set = ground arith;
  }

  fill_thresholds_keeps : (t : RiskThresholds F) → ThresholdsUsable t → fill_thresholds t ≡ t
  unfolding fill_thresholds
  fill_thresholds_keeps t u = ground arith

  load_rag_config_keeps : (r : RagConfig F) → RagUsable r → load_rag_config r ≡ r
  unfolding load_rag_config
  load_rag_config_keeps r u = ground arith

  -- Whatever the file holds, a configuration that LoadConfig returns is usable: the default limit
  -- is at least 1 and at most the maximum limit, which is at most 100; each threshold that is an
  -- integer is at least 1, and neither of the two that are float64 compares as 0 or below, which leaves
  -- them NaN at worst; the settings of the retrieval pipeline are not 0 or empty; and the map of
  -- protected tags has a key, whose list of values may be empty.
  pub load_config-IsUsable :
      (file : ConfigFile F) {c : AppConfig F} → load_config file ≡ some c → IsUsable c
  unfolding load_config fill_defaults
  load_config-IsUsable unreadable h = cc
  load_config-IsUsable malformed h = cc
  load_config-IsUsable (decoded c) h = subst IsUsable (some-injective _ _ h) (record {
    limits = fill_limits-LimitsUsable c.global_limits;
    thresholds = fill_thresholds_usable c.risk_thresholds;
    rag_set = load_rag_config_usable c.rag;
    tags_set = fill_tags_set c.protected_tags;
  })

  -- A usable configuration is loaded as it stands in the file.
  load_config_keeps : (c : AppConfig F) → IsUsable c → load_config (decoded c) ≡ some c
  unfolding load_config fill_defaults
  load_config_keeps c u = cc (
    fill_limits_keeps c.global_limits u.limits,
    fill_thresholds_keeps c.risk_thresholds u.thresholds,
    load_rag_config_keeps c.rag u.rag_set,
    fill_tags_keeps c.protected_tags u.tags_set,
  )
