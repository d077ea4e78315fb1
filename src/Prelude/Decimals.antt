-- ===== src/Prelude/Decimals.antt =====
-- Decimal fractions, which are values enough for the constants of the source.
use Prim.Native.Nat.{ℕ, ◌*◌, ◌^◌, ◌<◌}
use mathlib.Core.Path.{◌≡◌}
use mathlib.Core.Bool.{Bool, false}
use native.Mathlib.Omega.{arith}
use mcp_server_dynamodb_sage.Prelude.Tests.{leb, ◌==◌}
use mcp_server_dynamodb_sage.Prelude.Float.{Float64}

-- Decimals m / 10 ^ k, which are enough for the constants.
unfoldable pub decimal_le : ℕ × ℕ → ℕ × ℕ → Bool
decimal_le (m, k) (n, j) = leb (m * 10 ^ j) (n * 10 ^ k)

unfoldable pub decimal_eq : ℕ × ℕ → ℕ × ℕ → Bool
decimal_eq (m, k) (n, j) = m * 10 ^ j == n * 10 ^ k

pub decimal_pos_le : (m k : ℕ) → 0 < m → decimal_le (m, k) (0, 0) ≡ false
unfolding decimal_le
decimal_pos_le m k h = ground arith

pub decimal_pos_eq : (m k : ℕ) → 0 < m → decimal_eq (m, k) (0, 0) ≡ false
unfolding decimal_eq
decimal_pos_eq m k h = ground arith

instance abbrev pub decimals : Float64 (ℕ × ℕ)
decimals = record {
  decimal = λ m k. (m, k);
  le = decimal_le;
  eq = decimal_eq;
  pos-not_le = decimal_pos_le;
  pos-not_eq = decimal_pos_eq;
}
