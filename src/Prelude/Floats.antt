-- ===== src/Prelude/Floats.antt =====
-- The floating point numbers that the code computes with. Python's `float` is no part of the program,
-- so its type and operations are parameters. A float32 is its bit pattern.
use mini2_anu_asim.Prelude.{ℕ, ◌^◌, ◌<◌, ◌≡◌, Option, some}
use mini2_anu_asim.Prelude.Int.{ℤ}
use mini2_anu_asim.Prelude.Text.{Str}

pub record Floats : Type 1 where
  pub F : Type 0
  -- `float(text)`, or nothing where it raises `ValueError`.
  pub parse : Str → Option F
  -- `float(i)`.
  pub of_int : ℤ → F
  -- The literal m / 10 ^ k.
  pub decimal : ℕ → ℕ → F
  pub add : F → F → F
  pub sub : F → F → F
  pub mul : F → F → F
  pub neg : F → F
  -- The rounding to float32 that `struct.pack` makes, or nothing where it raises `OverflowError`.
  pub to_f32 : F → Option ℕ
  pub f32_word : (x : F) (w : ℕ) → to_f32 x ≡ some w → w < 2 ^ 32
