-- ===== src/Prelude/Numerals.antt =====
-- strconv.Atoi, which reads a decimal integer of 64 bits.
use mathlib.Core.Bool.{◌&&◌}
use mathlib.Core.List.{List, [], ◌∷◌}
use mathlib.Core.Option.{Option, none, some}
use Prim.Native.Nat.{ℕ, ◌+◌, ◌-◌, ◌*◌, ◌^◌}
use Prim.Native.String.{String}
use mcp_server_dynamodb_sage.Prelude.Tests.{leb, ◌==◌, if◌then◌else◌}
use mcp_server_dynamodb_sage.Prelude.Text.{codes}
use mcp_server_dynamodb_sage.Prelude.Int.{ℤ, pos, negsuc}

-- The digits read after those of value `n`.
abbrev pub digits_from : ℕ → List ℕ → Option ℕ
digits_from n [] = some n
digits_from n (c ∷ cs) =
    let rest = digits_from (n * 10 + (c - b'0')) cs in
    if leb b'0' c && leb c b'9' then rest else none

abbrev pub digits : List ℕ → Option ℕ
digits [] = none
digits (c ∷ cs) = digits_from 0 (c ∷ cs)

abbrev pub negative : ℕ → ℤ
negative n = if n == 0 then pos 0 else negsuc (n - 1)

abbrev pub within : ℕ → (ℕ → ℤ) → Option ℕ → Option ℤ
within bound signed none = none
within bound signed (some n) = if leb n bound then some (signed n) else none

abbrev pub signed : List ℕ → Option ℤ
signed [] = none
signed (c ∷ cs) =
    if c == b'-'
    then within (2 ^ 63) negative (digits cs)
    else if c == b'+'
    then within (2 ^ 63 - 1) pos (digits cs)
    else within (2 ^ 63 - 1) pos (digits (c ∷ cs))

-- The second result, an error, is `none`.
unfoldable pub atoi : String → Option ℤ
atoi s = signed (codes s)
