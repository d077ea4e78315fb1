-- ===== src/Engine/Guardrail/Batch.antt =====
-- ValidateBatchSize of internal/engine/guardrails.go, and the capacity estimates.
use mcp_server_dynamodb_sage.Prelude.{
  ℕ, ◌+◌, ◌*◌, ◌≤◌, ◌<◌, ◌≡◌, ◌↔◌, ◌⊎◌, false, List, [], ◌∷◌, All, sum, map, arith,
}
use mcp_server_dynamodb_sage.Engine.Values.{Item, estimated_size}
use mcp_server_dynamodb_sage.Engine.Guardrail.{
  WriteRequest, request_size, fits, check_requests, validate_batch_size, max_individual_size,
  max_batch_size, estimated_half_rcu, estimated_wcu,
}

abbrev pub IsSmall : WriteRequest → Type 0
IsSmall r = request_size r ≤ max_individual_size

abbrev pub total_size : List WriteRequest → ℕ
total_size rs = sum (map request_size rs)

check_requests_sound :
    (so_far : ℕ) (rs : List WriteRequest)
    → check_requests so_far rs ≡ fits
    → All IsSmall rs × (so_far + total_size rs ≤ max_batch_size)
unfolding check_requests
check_requests_sound so_far [] h = ground arith
check_requests_sound so_far (r ∷ rs) h =
    ground (arith, check_requests_sound (so_far + request_size r) rs)

check_requests_complete :
    (so_far : ℕ) (rs : List WriteRequest)
    → All IsSmall rs
    → so_far + total_size rs ≤ max_batch_size
    → check_requests so_far rs ≡ fits
unfolding check_requests
check_requests_complete so_far [] small room = ground arith
check_requests_complete so_far (r ∷ rs) small room =
    ground (arith, check_requests_complete (so_far + request_size r) rs small.1)

-- A batch is accepted exactly when each of its requests is within the limit of one item and all
-- of them together are within the limit of a batch.
validate_batch_size_iff :
    (rs : List WriteRequest)
    → (validate_batch_size rs ≡ fits) ↔ (All IsSmall rs × (total_size rs ≤ max_batch_size))
unfolding validate_batch_size
validate_batch_size_iff rs = (
  λ h. let (small, room) = check_requests_sound 0 rs h in (small, omega arith),
  λ h. check_requests_complete 0 rs h.0 (omega arith),
)

-- The read estimate, counted in half units, is never below half a unit, covers the item's size at
-- 4096 bytes for each unit of a consistent read, and exceeds it by less than one page unless it is
-- the minimum. The write estimate does so at 1024 bytes for each unit.
capacity_estimates :
    (item : Item)
    → (1 ≤ estimated_half_rcu item false)
      × (estimated_size item ≤ 4096 * estimated_half_rcu item false)
      × ((estimated_half_rcu item false ≡ 1)
          ⊎ (4096 * estimated_half_rcu item false < estimated_size item + 4096))
      × (1 ≤ estimated_wcu item)
      × (estimated_size item ≤ 1024 * estimated_wcu item)
      × ((estimated_wcu item ≡ 1) ⊎ (1024 * estimated_wcu item < estimated_size item + 1024))
unfolding estimated_half_rcu estimated_wcu
capacity_estimates item = ground arith
