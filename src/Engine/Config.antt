-- ===== src/Engine/Config.antt =====
-- internal/engine/config.go: the configuration and the defaults that LoadConfig fills in.
pub mod Limits
use mcp_server_dynamodb_sage.Prelude.{
  ℕ, String, Bool, true, false, ◌&&◌, ◌||◌, Option, none, some, List, [], ◌∷◌, Assoc, str_eq,
  if◌then◌else◌,
}
use mcp_server_dynamodb_sage.Prelude.Int.{ℤ, pos, negsuc, leb_ℤ, ltb_ℤ, eqb_ℤ}
use mcp_server_dynamodb_sage.Prelude.Float.{Float64, not_positive, is_zero}

pub record TableConfig : Type 0 where
  pub name : String
  pub pii_fields : List String
  pub read_only : Bool
  pub enforce_schema : Bool
  pub columns : Assoc String

-- An `int32` or an `int` is an integer: nothing here computes with it beyond its range.
pub record GlobalLimits : Type 0 where
  pub max_limit : ℤ
  pub default_limit : ℤ

pub record RiskThresholds (F : Type 0) : Type 0 where
  pub table_size_mb : F
  pub scan_cost_usd : F
  pub batch_delete_count : ℤ
  pub batch_get_count : ℤ
  pub batch_put_count : ℤ
  pub max_throughput_increase : ℤ
  pub update_expression_depth : ℤ

pub record EmbeddingConfig : Type 0 where
  pub provider : String
  pub model : String
  pub dimensions : ℤ

pub record ChunkingConfig : Type 0 where
  pub max_tokens : ℤ
  pub overlap : ℤ

pub record VectorDbConfig : Type 0 where
  pub provider : String
  pub host : String
  pub port : ℤ

pub record RetrievalConfig (F : Type 0) : Type 0 where
  pub top_k : ℤ
  pub score_threshold : F
  pub final_k : ℤ

pub record RagConfig (F : Type 0) : Type 0 where
  pub enabled : Bool
  pub embedding : EmbeddingConfig
  pub chunking : ChunkingConfig
  pub vector_db : VectorDbConfig
  pub retrieval : RetrievalConfig F

pub record AppConfig (F : Type 0) : Type 0 where
  pub global_limits : GlobalLimits
  pub sensitive_fields : List String
  pub enforce_password_hashing : Bool
  pub protected_tables : List String
  pub tables : List TableConfig
  pub risk_thresholds : RiskThresholds F
  pub risk_level : ℤ
  pub protected_tags : Assoc (List String)
  pub rag : RagConfig F

abbrev pub default_max_limit : ℤ
default_max_limit = pos 100

abbrev pub default_limit : ℤ
default_limit = pos 20

abbrev pub default_protected_tags : Assoc (List String)
default_protected_tags = ("environment", "production" ∷ "prod" ∷ []) ∷ []

-- `if x <= 0 { x = d }`
abbrev pub or_positive : ℤ → ℤ → ℤ
or_positive x d = if leb_ℤ x (pos 0) then d else x

-- `if x == 0 { x = d }`, and its like for texts
abbrev pub or_nonzero : ℤ → ℤ → ℤ
or_nonzero x d = if eqb_ℤ x (pos 0) then d else x

abbrev pub or_nonempty : String → String → String
or_nonempty s d = if str_eq s "" then d else s

-- The limits: the three tests on GlobalLimits, in their order.
unfoldable pub fill_limits : GlobalLimits → GlobalLimits
fill_limits g =
    let m =
      if leb_ℤ g.max_limit (pos 0) || ltb_ℤ default_max_limit g.max_limit
      then default_max_limit
      else g.max_limit in
    let d =
      if leb_ℤ g.default_limit (pos 0) || ltb_ℤ default_max_limit g.default_limit
      then default_limit
      else g.default_limit in
    record { max_limit = m; default_limit = if ltb_ℤ m d then m else d }

abbrev pub fill_tags : Assoc (List String) → Assoc (List String)
fill_tags [] = default_protected_tags
fill_tags (e ∷ m) = e ∷ m

-- What os.ReadFile and yaml.Unmarshal give.
pub data ConfigFile (F : Type 0) : Type 0 where
  unreadable : ConfigFile F
  malformed : ConfigFile F
  decoded : AppConfig F → ConfigFile F

module _ {F : Type 0} ⦃f : Float64 F⦄ where
  unfoldable pub fill_thresholds : RiskThresholds F → RiskThresholds F
  fill_thresholds t = record {
    table_size_mb = if not_positive t.table_size_mb then f.decimal 10 0 else t.table_size_mb;
    scan_cost_usd = if not_positive t.scan_cost_usd then f.decimal 5 2 else t.scan_cost_usd;
    batch_delete_count = or_positive t.batch_delete_count default_max_limit;
    batch_get_count = or_positive t.batch_get_count default_max_limit;
    batch_put_count = or_positive t.batch_put_count default_max_limit;
    max_throughput_increase = or_positive t.max_throughput_increase (pos 2000);
    update_expression_depth = or_positive t.update_expression_depth (pos 5);
  }

  -- loadRagConfig
  unfoldable pub load_rag_config : RagConfig F → RagConfig F
  load_rag_config r = record {
    enabled = r.enabled;
    embedding = record {
      provider = or_nonempty r.embedding.provider "openai";
      model = or_nonempty r.embedding.model "text-embedding-3-small";
      dimensions = or_nonzero r.embedding.dimensions (pos 1536);
    };
    chunking = record {
      max_tokens = or_nonzero r.chunking.max_tokens (pos 500);
      overlap = or_nonzero r.chunking.overlap (pos 50);
    };
    vector_db = record {
      provider = or_nonempty r.vector_db.provider "openai";
      host = or_nonempty r.vector_db.host "localhost";
      port = or_nonzero r.vector_db.port (pos 6334);
    };
    retrieval = record {
      top_k = or_nonzero r.retrieval.top_k (pos 20);
      score_threshold =
          if is_zero r.retrieval.score_threshold
          then f.decimal 75 2
          else r.retrieval.score_threshold;
      final_k = or_nonzero r.retrieval.final_k (pos 4);
    };
  }

  -- LoadConfig after the file is decoded.
  unfoldable pub fill_defaults : AppConfig F → AppConfig F
  fill_defaults c = record c {
    global_limits = fill_limits c.global_limits;
    risk_thresholds = fill_thresholds c.risk_thresholds;
    protected_tags = fill_tags c.protected_tags;
    rag = load_rag_config c.rag;
  }

  unfoldable pub load_config : ConfigFile F → Option (AppConfig F)
  load_config unreadable = none
  load_config malformed = none
  load_config (decoded c) = some (fill_defaults c)
