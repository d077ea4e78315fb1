-- ===== src/Server/Registry/Tests.antt =====
-- The registration of the tools of server/tools.go at concrete names.
use mcp_server_dynamodb_sage.Prelude.{inl, ◌≡◌, refl, true, false, lookup, str_eq}
use mcp_server_dynamodb_sage.Engine.Guardrail.{
  validate_read_only_table, validate_protected_table, get_table_config,
}
use mcp_server_dynamodb_sage.Risk.Samples.{guard, surroundings, on_table}
use mcp_server_dynamodb_sage.Risk.Dispatch.Guarded.{GuardedTool, closed_table_is_never_written}
use mcp_server_dynamodb_sage.Server.Tools.{tool_by_name}
use mcp_server_dynamodb_sage.Server.Registry.{add_tools}
use mcp_server_dynamodb_sage.Server.Registry.Agree.{registered_as_dispatched}
use mcp_server_dynamodb_sage.Server.Registry.Confirm.{IsConfirmable, analyze-IsConfirmable}

registered_as_dispatched_example :
    lookup "delete_table" (add_tools true) ≡ tool_by_name "delete_table"
registered_as_dispatched_example = registered_as_dispatched "delete_table"

analyze-IsConfirmable_example : IsConfirmable false "delete_table"
unfolding validate_read_only_table validate_protected_table get_table_config str_eq
analyze-IsConfirmable_example =
    analyze-IsConfirmable surroundings guard false "delete_table" (inl (on_table "ledger")) (
      closed_table_is_never_written surroundings guard GuardedTool.delete_table (on_table "ledger")
        refl)
