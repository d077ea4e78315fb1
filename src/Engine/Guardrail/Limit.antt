-- ===== src/Engine/Guardrail/Limit.antt =====
-- EnforceLimit of internal/engine/guardrails.go under a loaded configuration.
use mcp_server_dynamodb_sage.Prelude.{◌≡◌, ◌⊎◌, arith}
use mcp_server_dynamodb_sage.Prelude.Int.{ℤ, pos, ◌≤ℤ◌}
use mcp_server_dynamodb_sage.Engine.Config.Limits.{LimitsUsable}
use mcp_server_dynamodb_sage.Engine.Guardrail.{Guardrail, no_warning, lowered_to, enforce_limit}

abbrev pub top : {F : Type 0} → Guardrail F → ℤ
top g = g.config.global_limits.max_limit

-- Under usable limits, the limit that a read is run with is at least 1 and at most the configured
-- maximum. A request within those bounds keeps its limit, one that asks for nothing above 0 gets
-- the default limit, both with no warning, and one that asks for more than the maximum gets the
-- maximum and a warning, which names that maximum twice and not the limit asked for.
pub enforce_limit_bounds :
    {F : Type 0} (g : Guardrail F) (limit : ℤ)
    → LimitsUsable g.config.global_limits
    → (pos 1 ≤ℤ (enforce_limit g limit).0)
      × ((enforce_limit g limit).0 ≤ℤ top g)
      × (((pos 1 ≤ℤ limit) × (limit ≤ℤ top g) × (enforce_limit g limit ≡ (limit, no_warning)))
          ⊎ ((limit ≤ℤ pos 0)
              × (enforce_limit g limit ≡ (g.config.global_limits.default_limit, no_warning)))
          ⊎ (¬ (limit ≤ℤ top g) × (enforce_limit g limit ≡ (top g, lowered_to (top g) (top g)))))
unfolding enforce_limit
enforce_limit_bounds g limit u = ground arith
