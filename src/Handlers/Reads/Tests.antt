-- ===== src/Handlers/Reads/Tests.antt =====
-- The queries and scans of server/handlers.go at concrete inputs.
use mcp_server_dynamodb_sage.Prelude.{
  ℕ, String, len, ◌≡◌, refl, inl, inr, true, none, [], ◌∷◌, Assoc, equal_fold,
}
use mcp_server_dynamodb_sage.Prelude.Int.{pos}
use mcp_server_dynamodb_sage.Engine.Values.{AttributeValue, Item, no_entries, entry, member_s}
use mcp_server_dynamodb_sage.Engine.Guardrail.{
  Guardrail, is_protected_field, is_sensitive_field, folds_to_any,
}
use mcp_server_dynamodb_sage.Handlers.Samples.{config, values}
use mcp_server_dynamodb_sage.Handlers.Effects.{Reply, reply, ReadInput, Trace}
use mcp_server_dynamodb_sage.Handlers.Passwords.{Values}
use mcp_server_dynamodb_sage.Handlers.Reads.{Page, ReadArgs, scan_intro, query_table, scan_table}
use mcp_server_dynamodb_sage.Handlers.Reads.Secrecy.{AreAlikeReplies, reads_are_secret}

abbrev guard : Guardrail ℕ
guard = record { protected_table = []; config = record config { sensitive_fields = "email" ∷ [] } }

abbrev value_text : AttributeValue → String
value_text (member_s s) = s
value_text _ = ""

abbrev text_fields : Item → Assoc String
text_fields no_entries = []
text_fields (entry k v rest) = (k, value_text v) ∷ text_fields rest

abbrev texts : Values String
texts = record values { unmarshal = text_fields }

-- A table of one user, whose address is a parameter.
abbrev users : String → Trace → String → ReadInput → Reply Page
users address w table input = reply (record {
  items = entry "id" (member_s "1") (entry "Email" (member_s address) no_entries) ∷ [];
  last_key = no_entries;
})

email_is_protected : (table : String) → is_protected_field guard table "Email" ≡ true
unfolding is_protected_field is_sensitive_field folds_to_any equal_fold
email_is_protected table = refl

users_are_alike :
    (w : Trace) (table : String) (input : ReadInput)
    → AreAlikeReplies texts guard table (users "a@b.c" w table input) (users "x@y.z" w table input)
users_are_alike w table input =
    (((refl, inr refl, (refl, inl (email_is_protected table), tt)), tt), refl)

abbrev all_users : ReadArgs String
all_users = record {
  table_name = "users";
  condition = "id = :id";
  projection = "";
  filter = "";
  index_name = "";
  names = [];
  values = [];
  limit = pos 5;
  start_key = none;
  consistent = none;
}

reads_are_secret_example :
    (query_table texts guard (users "a@b.c") all_users []
      ≡ query_table texts guard (users "x@y.z") all_users [])
    × (scan_table texts guard (users "a@b.c") all_users []
        ≡ scan_table texts guard (users "x@y.z") all_users [])
reads_are_secret_example =
    reads_are_secret texts guard (users "a@b.c") (users "x@y.z") users_are_alike all_users []

intro_length : len scan_intro ≡ 144
intro_length = refl
