-- ===== src/Prelude/Float.antt =====
-- The operations of Go's float64 that the source uses, over an abstract type of values. The laws
-- are the documented IEEE 754 behaviour of the decimal constants of the source.
use Prim.Native.Nat.{ℕ, ◌<◌}
use mathlib.Core.Path.{◌≡◌}
use mathlib.Core.Bool.{Bool, false}
use mcp_server_dynamodb_sage.Prelude.Int.{ℤ}

pub record Float64 (F : Type 0) : Type 0 where
  -- `decimal m k` is the constant m / 10 ^ k
  pub decimal : ℕ → ℕ → F
  pub le : F → F → Bool
  pub eq : F → F → Bool
  -- a constant above 0 is above 0
  pub pos-not_le : (m k : ℕ) → 0 < m → le (decimal m k) (decimal 0 0) ≡ false
  pub pos-not_eq : (m k : ℕ) → 0 < m → eq (decimal m k) (decimal 0 0) ≡ false

-- x <= 0 and x == 0
module _ {F : Type 0} ⦃f : Float64 F⦄ where
  abbrev pub not_positive : F → Bool
  not_positive x = f.le x (f.decimal 0 0)

  abbrev pub is_zero : F → Bool
  is_zero x = f.eq x (f.decimal 0 0)

-- What an estimate needs: conversion, product, quotient, rounding up, the integer part, and order.
pub record Arithmetic (F : Type 0) : Type 0 where
  pub of_int : ℤ → F
  pub constant : ℕ → ℕ → F
  pub times : F → F → F
  pub over : F → F → F
  pub ceil : F → F
  pub int_part : F → ℤ
  pub lt : F → F → Bool
