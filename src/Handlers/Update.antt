-- ===== src/Handlers/Update.antt =====
-- updateItem of server/handlers.go. A Go map is a list of its entries in the order in which a loop
-- visits them. The regular expression for the password's placeholder is written out as a search.
use Prim.Native.Char.{code}
use mcp_server_dynamodb_sage.Prelude.{
  ℕ, String, Bool, false, ◌&&◌, ◌||◌, not, leb, ◌==◌, Option, none, some, [], ◌∷◌, Assoc, insert,
  lookup, str_eq, str_append, lower, if◌then◌else◌,
}
use mcp_server_dynamodb_sage.Engine.Values.{Item, no_entries, entry}
use mcp_server_dynamodb_sage.Engine.Guardrail.{Guardrail}
use mcp_server_dynamodb_sage.Server.Jobs.Execute.{CallToolResult}
use mcp_server_dynamodb_sage.Handlers.Effects.{
  Reply, error, reply, ItemUpdate, updates_item, Dynamo, M, goes, pure, return, ◌>>=◌,
  success_result, error_result, say, audit, Subject, fail_audited, guarded,
}
use mcp_server_dynamodb_sage.Handlers.Passwords.{Values, is_password}
use mcp_server_dynamodb_sage.Handlers.Items.{notify, validation_error, or_return, scrub_one}
use mcp_server_dynamodb_sage.Handlers.Tables.{non_empty}

-- strings.TrimLeft(s, "#")
unfoldable pub trim_hashes : String → String
trim_hashes String.[] = ""
trim_hashes (String.◌∷◌ c s) =
    let rest = trim_hashes s in if code c == 35 then rest else String.◌∷◌ c s

-- The loop over the names: the placeholder of the first alias of the password.
unfoldable pub password_placeholder : Assoc String → String
unfolding trim_hashes
password_placeholder [] = ""
password_placeholder ((alias, name) ∷ names) =
    let rest = password_placeholder names in
    if is_password name then str_append ":" (trim_hashes alias) else rest

-- A character of \w.
abbrev pub is_word : ℕ → Bool
is_word c = (leb 48 c && leb c 57) || (leb 65 c && leb c 90) || c == 95 || (leb 97 c && leb c 122)

-- A character of \s.
abbrev pub is_blank_char : ℕ → Bool
is_blank_char c = c == 9 || c == 10 || c == 12 || c == 13 || c == 32

unfoldable pub skip_blanks : String → String
skip_blanks String.[] = ""
skip_blanks (String.◌∷◌ c s) =
    let rest = skip_blanks s in if is_blank_char (code c) then rest else String.◌∷◌ c s

unfoldable pub word_prefix : String → String
word_prefix String.[] = ""
word_prefix (String.◌∷◌ c s) =
    let rest = word_prefix s in if is_word (code c) then String.◌∷◌ c rest else ""

-- What follows a word in lower case, in a text that has it in any case.
unfoldable pub after_word : (word text : String) → Option String
after_word String.[] s = some s
after_word (String.◌∷◌ c w) String.[] = none
after_word (String.◌∷◌ c w) (String.◌∷◌ d s) =
    let rest = after_word w s in if code c == lower (code d) then rest else none

abbrev pub placeholder : String → Option String
placeholder String.[] = none
placeholder (String.◌∷◌ c s) =
    let word = word_prefix s in
    if code c == 58 && not (str_eq word "") then some (String.◌∷◌ c word) else none

abbrev pub assigned : String → Option String
assigned String.[] = none
assigned (String.◌∷◌ c s) = if code c == 61 then placeholder (skip_blanks s) else none

-- A match of (?i)password\s*=\s*(:\w+) at the start of a text: its group.
unfoldable pub match_here : String → Option String
unfolding skip_blanks word_prefix after_word
match_here s = elim (after_word "password" s) [
  | none ↦ none
  | some rest ↦ assigned (skip_blanks rest)
]

abbrev pub first_of : Option String → Option String → Option String
first_of none rest = rest
first_of (some found) rest = some found

-- The first match that starts at a word's boundary. `after` is whether the text stands after a
-- character of \w.
unfoldable pub find_match : (after : Bool) → String → Option String
unfolding match_here
find_match after String.[] = none
find_match after (String.◌∷◌ c s) =
    let rest = find_match (is_word (code c)) s in
    if after then rest else first_of (match_here (String.◌∷◌ c s)) rest

abbrev pub matched : Option String → String
matched none = ""
matched (some found) = found

-- The placeholder whose value is to be hashed, or the empty text.
unfoldable pub password_alias : Bool → Assoc String → String → String
unfolding password_placeholder find_match
password_alias enforced names update =
    let alias = password_placeholder names in
    if enforced then if str_eq alias "" then matched (find_match false update) else alias else ""

pub record UpdateItemArgs (V : Type 0) : Type 0 where
  pub table_name : String
  pub key : Option (Assoc V)  -- a Go map, which may be nil
  pub names : Assoc String
  pub values : Assoc V
  pub condition : String
  pub update : String
  pub return_value : String

module _ {F V : Type 0} (v : Values V) (db : Dynamo) (g : Guardrail F) where
  abbrev pub update_subject : String → Subject
  update_subject table = record { operation = "update_item"; table = table; capacity_type = "WCU" }

  abbrev pub hashed_value : (table alias : String) → Assoc V → Reply String → M (Assoc V)
  hashed_value table alias values (error e) = return (
      error_result (
        say (
          "Error when hashing password value for key " ∷ alias ∷ " for table " ∷ table ∷ ": " ∷ e
          ∷ [])))
  hashed_value table alias values (reply h) = pure (insert alias (v.of_text h) values)

  -- The loop over the values, of which at most one has the placeholder.
  unfoldable pub hash_placeholder : (table alias : String) → Assoc V → M (Assoc V)
  unfolding error_result
  hash_placeholder table alias values =
      if str_eq alias "" then pure values else elim (lookup alias values) [
        | none ↦ pure values
        | some value ↦ elim (v.as_text value) [
          | none ↦ return (error_result "Password must be a string")
          | some text ↦ hashed_value table alias values (v.hash text)
        ]
      ]

  -- The values of the request: none where the arguments have none.
  unfoldable pub marshal_values : (table alias : String) → Assoc V → M (Option Item)
  unfolding hash_placeholder
  marshal_values table alias [] = pure none
  marshal_values table alias (f ∷ values) = do
    hashed ← hash_placeholder table alias (f ∷ values)
    av ← or_return (v.marshal hashed) (λ e. say (
        "Error when marshalling expression attribute value "
        ∷ v.print hashed
        ∷ " for table "
        ∷ table
        ∷ ": "
        ∷ e
        ∷ []))
    pure (some av)

  -- The attributes that UpdateItem gives back, scrubbed; without any there is no text.
  abbrev pub scrubbed_text : Assoc V → String
  scrubbed_text [] = ""
  scrubbed_text (f ∷ fields) = str_append ", Attributes: " (v.json (f ∷ fields))

  unfoldable pub attributes_text : String → Item → String
  unfolding scrub_one
  attributes_text table no_entries = ""
  attributes_text table (entry k a rest) =
      scrubbed_text (scrub_one v db g table (v.unmarshal (entry k a rest)))

  unfoldable pub send_update : String → Assoc V → ItemUpdate → M CallToolResult
  unfolding attributes_text success_result error_result
  send_update table key input w = elim (db.update_item w table input) [
    | error e ↦
        fail_audited (update_subject table)
          (say ("Error when updating item " ∷ v.print key ∷ " from table " ∷ table ∷ ": " ∷ e ∷ []))
          (updates_item table input ∷ w)
    | reply attributes ↦
        let message = say (
          "Successfully updated item "
          ∷ v.json key
          ∷ " from table "
          ∷ table
          ∷ attributes_text table attributes
          ∷ []) in
        (
          notify table "update_item" "success" message
              ∷ audit "update_item" table "WCU" false
              ∷ updates_item table input
              ∷ w,
          goes (success_result message),
        )
  ]

  unfoldable pub update_keyed : UpdateItemArgs V → Option (Assoc V) → M CallToolResult
  unfolding send_update marshal_values password_alias error_result
  update_keyed args none = return (
      error_result
        (say ("Error when updating item for table: " ∷ args.table_name ∷ " key is required" ∷ [])))
  update_keyed args (some key) = do
    av ← or_return (v.marshal key) (λ e. say (
        "Error when marshalling key "
        ∷ v.print key
        ∷ " for table "
        ∷ args.table_name
        ∷ ": "
        ∷ e
        ∷ []))
    values ←
        marshal_values args.table_name
          (password_alias g.config.enforce_password_hashing args.names args.update) args.values
    send_update args.table_name key (record {
      key = av;
      names = args.names;
      values = values;
      condition = non_empty args.condition;
      update = non_empty args.update;
      return_values = non_empty args.return_value;
    })

  unfoldable pub update_item : UpdateItemArgs V → M CallToolResult
  unfolding update_keyed
  update_item args =
      guarded db g (update_subject args.table_name) (validation_error "") (validation_error "")
        (validation_error "; table item cannot be updated") (pure tt) (update_keyed args args.key)
