-- ===== src/Handlers/Tables.antt =====
-- deleteTable, updateTable and updateTableTTL of server/handlers.go. That the answer of UpdateTable
-- has a description of the table is what the AWS library documents.
use mcp_server_dynamodb_sage.Prelude.{
  String, Bool, true, false, ◌||◌, not, ◌&&◌, Option, none, some, List, [], ◌∷◌, str_eq, str_append,
  any, if◌then◌else◌,
}
use mcp_server_dynamodb_sage.Prelude.Int.{ℤ, pos, leb_ℤ, eqb_ℤ}
use mcp_server_dynamodb_sage.Engine.Guardrail.{Guardrail, validate_capacity_units}
use mcp_server_dynamodb_sage.Server.Jobs.Execute.{CallToolResult}
use mcp_server_dynamodb_sage.Handlers.Effects.{
  Reply, error, reply, Throughput, IndexUpdate, TableUpdate, describes, deletes_table,
  updates_table, tags_resource, updates_ttl, describes_ttl, Dynamo, M, goes, pure, return, ◌>>=◌,
  ◌>>◌, record_event, success_result, error_result, say, audit, Subject, fail_audited, guarded,
}
use mcp_server_dynamodb_sage.Handlers.Items.{notify, validation_error}

-- An operation on a whole table: no capacity is reported.
abbrev pub table_subject : (operation table : String) → Subject
table_subject operation table = record { operation = operation; table = table; capacity_type = "" }

abbrev pub join_with : String → List String → String
join_with sep [] = ""
join_with sep (s ∷ []) = s
join_with sep (s ∷ t ∷ ss) = str_append s (str_append sep (join_with sep (t ∷ ss)))

unfoldable pub to_dynamo_tags : List (String × List String) → List (String × String)
to_dynamo_tags [] = []
to_dynamo_tags ((k, vs) ∷ tags) = (k, join_with "," vs) ∷ to_dynamo_tags tags

abbrev pub tag_texts : List (String × String) → List String
tag_texts [] = []
tag_texts ((k, v) ∷ tags) = say (k ∷ "=" ∷ v ∷ []) ∷ tag_texts tags

unfoldable pub tag_summary : List (String × String) → String
tag_summary tags = join_with ", " (tag_texts tags)

pub record UpdateTableArgs : Type 0 where
  pub table_name : String
  pub index_updates : List IndexUpdate
  pub billing_mode : String
  pub throughput : Option Throughput
  pub attributes : List (String × String)
  pub tags : List (String × List String)

abbrev pub is_given : Option String → Bool
is_given none = false
is_given (some _) = true

-- The index updates that hold an action.
unfoldable pub real_updates : List IndexUpdate → List IndexUpdate
real_updates [] = []
real_updates (u ∷ us) =
    let rest = real_updates us in
    if is_given u.create || is_given u.update || is_given u.delete then u ∷ rest else rest

-- A text that may be left out, as a pointer.
abbrev pub non_empty : String → Option String
non_empty s = if str_eq s "" then none else some s

abbrev pub at_least_one : ℤ → ℤ
at_least_one n = if eqb_ℤ n (pos 0) then pos 1 else n

module _ {F : Type 0} (db : Dynamo) (g : Guardrail F) where
  unfoldable pub remove_table : String → M CallToolResult
  unfolding success_result error_result
  remove_table table w = elim (db.delete_table w table) [
    | some e ↦
        fail_audited (table_subject "delete_table" table)
          (say ("DeleteTable " ∷ table ∷ " failed: " ∷ e ∷ [])) (deletes_table table ∷ w)
    | none ↦ (
      notify table "delete_table" "success" (str_append "Successfully deleted table " table)
          ∷ audit "delete_table" table "" false
          ∷ deletes_table table
          ∷ w,
      goes (success_result (str_append "Successfully deleted table " table)),
    )
  ]

  unfoldable pub delete_table : String → M CallToolResult
  unfolding remove_table
  delete_table table =
      guarded db g (table_subject "delete_table" table) (str_append "DeleteTable: ")
        (validation_error "") (validation_error "; table cannot be deleted") (pure tt)
        (remove_table table)

  -- The throughput that updateTable asks for, or that a number exceeds the limit. The numbers of the
  -- message are left out.
  unfoldable pub update_throughput : String → Option Throughput → M (Option Throughput)
  unfolding error_result
  update_throughput billing_mode none = pure none
  update_throughput billing_mode (some t) =
      if leb_ℤ (pos 0) t.write_units
        || leb_ℤ (pos 0) t.read_units
        || str_eq billing_mode "PROVISIONED"
      then if validate_capacity_units g t.read_units || validate_capacity_units g t.write_units
        then return (error_result "UpdateTable: capacity units exceed limit")
        else pure (
            some (record {
              read_units = at_least_one t.read_units;
              write_units = at_least_one t.write_units;
            }))
      else pure none

  abbrev pub tag_failed : String → String → String
  tag_failed table e =
      say ("UpdateTable " ∷ table ∷ " succeeded, but TagResource failed: " ∷ e ∷ [])

  -- tagTable, and what updateTable makes of its error.
  unfoldable pub tag_table : String → String → List (String × String) → M (Unit {0})
  tag_table table arn [] w = (w, goes tt)
  tag_table table arn (t ∷ tags) w =
      if str_eq arn ""
      then fail_audited (table_subject "update_table" table)
          (tag_failed table "table ARN is required to tag DynamoDB table") w
      else elim (db.tag_resource w arn (t ∷ tags)) [
        | none ↦ (tags_resource arn (t ∷ tags) ∷ w, goes tt)
        | some e ↦
            fail_audited (table_subject "update_table" table)
              (tag_failed table (say ("tag table " ∷ table ∷ ": " ∷ e ∷ [])))
              (tags_resource arn (t ∷ tags) ∷ w)
      ]

  -- The tags of a table whose update succeeded. Without tags nothing is done.
  unfoldable pub tag_updated : String → Option String → List (String × String) → M (Unit {0})
  unfolding tag_table error_result
  tag_updated table arn [] = pure tt
  tag_updated table none (t ∷ tags) =
      return (error_result (say ("UpdateTable " ∷ table ∷ " did not return a table ARN" ∷ [])))
  tag_updated table (some arn) (t ∷ tags) = tag_table table arn (t ∷ tags)

  abbrev pub updated_message : String → String → List (String × String) → String
  updated_message table status [] =
      say ("Successfully updated table \"" ∷ table ∷ "\"\n Table status: " ∷ status ∷ [])
  updated_message table status (t ∷ tags) = say (
      "Successfully updated table \""
      ∷ table
      ∷ "\"\n Table status: "
      ∷ status
      ∷ "\n Tags applied: "
      ∷ tag_summary (t ∷ tags)
      ∷ [])

  abbrev pub report_updated : String → String → List (String × String) → M CallToolResult
  report_updated table status tags = do
    record_event (audit "update_table" table "" false)
    record_event (notify table "update_table" "success" (updated_message table status tags))
    pure (success_result (updated_message table status tags))

  unfoldable pub update_given : String → TableUpdate → List (String × String) → M CallToolResult
  unfolding tag_updated success_result
  update_given table input tags w = elim (db.update_table w table input) [
    | error e ↦
        fail_audited (table_subject "update_table" table)
          (say ("Failed to update table " ∷ table ∷ ": " ∷ e ∷ [])) (updates_table table input ∷ w)
    | reply (arn, status) ↦
        (tag_updated table arn tags >> report_updated table status tags)
          (updates_table table input ∷ w)
  ]

  unfoldable pub update_checked : UpdateTableArgs → M CallToolResult
  unfolding update_given update_throughput real_updates to_dynamo_tags
  update_checked args = do
    throughput ← update_throughput args.billing_mode args.throughput
    update_given args.table_name
        (record {
          billing_mode = non_empty args.billing_mode;
          throughput = throughput;
          index_updates = real_updates args.index_updates;
          attributes = args.attributes;
        })
        (to_dynamo_tags args.tags)

  unfoldable pub update_table : UpdateTableArgs → M CallToolResult
  unfolding update_checked
  update_table args =
      guarded db g (table_subject "update_table" args.table_name) (str_append "UpdateTable: ")
        (validation_error "") (validation_error "; table cannot be updated") (pure tt)
        (update_checked args)

  abbrev pub ttl_failed : String → String → String
  ttl_failed table e = say ("UpdateTableTTL " ∷ table ∷ " failed: " ∷ e ∷ [])

  -- The status that DescribeTimeToLive gives, whose error is ignored.
  abbrev pub ttl_status : Option String → String
  ttl_status none = "Unknown"
  ttl_status (some s) = s

  unfoldable pub update_ttl_given : (table attribute : String) → Bool → M CallToolResult
  unfolding success_result error_result
  update_ttl_given table attribute enabled w = elim (db.update_ttl w table attribute enabled) [
    | some e ↦
        fail_audited (table_subject "update_table_ttl" table) (ttl_failed table e)
          (updates_ttl table attribute enabled ∷ w)
    | none ↦
        let w' = updates_ttl table attribute enabled ∷ w in
        (
          audit "update_table_ttl" table "" false ∷ describes_ttl table ∷ w',
          goes (
              success_result (
                say (
                  "Successfully updated table "
                  ∷ table
                  ∷ " TTL status to "
                  ∷ ttl_status (db.describe_ttl w' table)
                  ∷ []))),
        )
  ]

  -- The attribute has to be one of the table's key attributes, and not the empty text.
  unfoldable pub ttl_described :
      (table attribute : String) → Bool → Reply (String × List String) → M CallToolResult
  unfolding update_ttl_given
  ttl_described table attribute enabled (error e) = return (error_result (ttl_failed table e))
  ttl_described table attribute enabled (reply (_, attributes)) =
      if any (λ a. str_eq a attribute) attributes && not (str_eq attribute "")
      then update_ttl_given table attribute enabled
      else return (
          error_result
            (say ("UpdateTableTTL: Attribute " ∷ attribute ∷ " not found in table " ∷ table ∷ [])))

  abbrev pub describe_for_ttl : (table attribute : String) → Bool → M CallToolResult
  describe_for_ttl table attribute enabled w =
      ttl_described table attribute enabled (db.describe_table w table) (describes table ∷ w)

  unfoldable pub update_table_ttl : (table attribute : String) → Bool → M CallToolResult
  unfolding ttl_described
  update_table_ttl table attribute enabled =
      guarded db g (table_subject "update_table_ttl" table) (str_append "UpdateTable: ")
        (validation_error "") (validation_error "; table cannot be modified") (pure tt)
        (describe_for_ttl table attribute enabled)
