-- ===== src/Handlers/Samples.antt =====
-- A configuration, a guardrail and values that the tests of the handlers (server/handlers.go) share.
use mcp_server_dynamodb_sage.Prelude.{ℕ, String, true, false, some, [], ◌∷◌, str_append}
use mcp_server_dynamodb_sage.Prelude.Int.{pos}
use mcp_server_dynamodb_sage.Engine.Config.{AppConfig}
use mcp_server_dynamodb_sage.Engine.Values.{no_entries, entry, member_s}
use mcp_server_dynamodb_sage.Engine.Guardrail.{Guardrail}
use mcp_server_dynamodb_sage.Risk.Writes.{marshalled}
use mcp_server_dynamodb_sage.Handlers.Effects.{reply}
use mcp_server_dynamodb_sage.Handlers.Passwords.{Values}

abbrev pub config : AppConfig ℕ
config = record {
  global_limits = record { max_limit = pos 100; default_limit = pos 20 };
  sensitive_fields = [];
  enforce_password_hashing = true;
  protected_tables = [];
  tables = [];
  risk_thresholds = record {
    table_size_mb = 10;
    scan_cost_usd = 5;
    batch_delete_count = pos 100;
    batch_get_count = pos 100;
    batch_put_count = pos 25;
    max_throughput_increase = pos 2000;
    update_expression_depth = pos 5;
  };
  risk_level = pos 0;
  protected_tags = ("env", "prod" ∷ []) ∷ [];
  rag = record {
    enabled = false;
    embedding = record { provider = "openai"; model = "small"; dimensions = pos 1536 };
    chunking = record { max_tokens = pos 500; overlap = pos 50 };
    vector_db = record { provider = "openai"; host = "localhost"; port = pos 6334 };
    retrieval = record { top_k = pos 20; score_threshold = 1; final_k = pos 4 };
  };
}

abbrev pub guard : Guardrail ℕ
guard = record { protected_table = []; config = config }

-- Every value is a text, and every item is marshalled to the same one.
abbrev pub values : Values String
values = record {
  of_text = λ s. s;
  as_text = some;
  marshal = λ i. marshalled (entry "id" (member_s "1") no_entries);
  unmarshal = λ i. [];
  json = λ i. "{}";
  print = λ i. "map[]";
  schema_errors = λ es. "e";
  json_indent = λ i. some "{}";
  number = λ n. "n";
  hash = λ s. reply (str_append "#" s);
}
