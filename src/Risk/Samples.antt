-- ===== src/Risk/Samples.antt =====
-- A configuration, texts and items for the tests of internal/risk.
use mcp_server_dynamodb_sage.Prelude.{ℕ, inl, String, true, false, some, [], ◌∷◌, Assoc}
use mcp_server_dynamodb_sage.Prelude.Int.{pos, pos_part}
use mcp_server_dynamodb_sage.Prelude.Float.{Arithmetic}
use mcp_server_dynamodb_sage.Prelude.{ltb, ◌*◌, ◌/◌, ◌⊎◌, none}
use mcp_server_dynamodb_sage.Engine.Config.{AppConfig}
use mcp_server_dynamodb_sage.Engine.Values.{Item, no_entries, entry, member_s}
use mcp_server_dynamodb_sage.Engine.Guardrail.{Guardrail}
use mcp_server_dynamodb_sage.Risk.Writes.{Marshalled, marshalled, Printer, BatchGet}
use mcp_server_dynamodb_sage.Risk.Updates.{found, Lookups}
use mcp_server_dynamodb_sage.Risk.Capacity.{Texts, TableSize, described}
use mcp_server_dynamodb_sage.Risk.Dispatch.{Arguments, Surroundings}

abbrev pub config : AppConfig ℕ
config = record {
  global_limits = record { max_limit = pos 100; default_limit = pos 20 };
  sensitive_fields = "password" ∷ [];
  enforce_password_hashing = true;
  protected_tables = "ledger" ∷ [];
  tables = [];
  risk_thresholds = record {
    table_size_mb = 10;
    scan_cost_usd = 5;
    batch_delete_count = pos 100;
    batch_get_count = pos 100;
    batch_put_count = pos 25;
    max_throughput_increase = pos 2000;
    update_expression_depth = pos 5;
  };
  risk_level = pos 0;
  protected_tags = [];
  rag = record {
    enabled = false;
    embedding = record { provider = "openai"; model = "small"; dimensions = pos 1536 };
    chunking = record { max_tokens = pos 500; overlap = pos 50 };
    vector_db = record { provider = "openai"; host = "localhost"; port = pos 6334 };
    retrieval = record { top_k = pos 20; score_threshold = 1; final_k = pos 4 };
  };
}

abbrev pub guard : Guardrail ℕ
guard = record { protected_table = ("ledger", true) ∷ []; config = config }

abbrev pub print : Printer
print = record { number = λ n. "n"; schema_errors = λ es. "e" }

abbrev pub text_item : Assoc String → Item
text_item [] = no_entries
text_item ((k, v) ∷ fields) = entry k (member_s v) (text_item fields)

abbrev pub marshal : Assoc String → Marshalled
marshal fields = marshalled (text_item fields)

abbrev pub user : Assoc String
user = ("id", "u1") ∷ ("password", "secret") ∷ []

abbrev pub echo : BatchGet
echo keys = inl keys

abbrev pub unmarshal : Item → Assoc String ⊎ String
unmarshal item = inl []

abbrev pub empty_table : Lookups
empty_table = record { first = λ key. found none; second = λ key. found none }

-- Whole numbers in place of float64.
abbrev pub whole : Arithmetic ℕ
whole = record {
  of_int = pos_part;
  constant = λ m k. m;
  times = λ a b. a * b;
  over = λ a b. a / b;
  ceil = λ a. a;
  int_part = λ a. pos a;
  lt = ltb;
}

abbrev pub texts : Texts ℕ
texts = record { number = λ n. "n"; two_digits = λ a. "a"; six_digits = λ a. "a" }

abbrev pub small_table : TableSize
small_table = record {
  table_size_bytes = some (pos 1000);
  item_count = some (pos 3);
  provisioned = true;
}

abbrev pub surroundings : Surroundings ℕ String
surroundings = record {
  arithmetic = whole;
  texts = texts;
  print = print;
  units = λ n. "n";
  count = λ n. "n";
  marshal = marshal;
  unmarshal = unmarshal;
  description = λ table. some (described small_table);
  lookups = some empty_table;
  batch_get = some echo;
}

abbrev pub on_table : String → Arguments ℕ String
on_table table = record {
  table_name = table;
  item = user;
  items = [];
  key = [];
  keys = [];
  update_expression = "SET name = :n";
  expression_attribute_values = [];
  read_capacity = none;
  write_capacity = none;
  key_schema = [];
  attribute_definitions = [];
  gsis = [];
}
