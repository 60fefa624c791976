-- ===== src/Prelude/Float.antt =====
-- Python's `float`. A value is its 64-bit pattern; the arithmetic of the machine is a parameter.
use Prim.Native.Nat.{ℕ}
use mathlib.Core.Bool.{Bool}
use mathlib.Core.Option.{Option}
use mathlib.Core.List.{List}
use capturemate_ai.Prelude.Int.{ℤ}

pub record Float : Type 0 where
  pub bits : ℕ

-- The literals of the source: 0.0, 0.5, 0.6, 0.75, 1.0 and 1000.0.
abbrev pub zero_float : Float
zero_float = record { bits = 0 }

abbrev pub half : Float
half = record { bits = 0x3fe0_0000_0000_0000 }

abbrev pub three_fifths : Float
three_fifths = record { bits = 0x3fe3_3333_3333_3333 }

abbrev pub three_quarters : Float
three_quarters = record { bits = 0x3fe8_0000_0000_0000 }

abbrev pub one_float : Float
one_float = record { bits = 0x3ff0_0000_0000_0000 }

abbrev pub thousand : Float
thousand = record { bits = 0x408f_4000_0000_0000 }

-- `none` is an exception: `div` raises ZeroDivisionError at a zero divisor, `of_int`
-- OverflowError at an integer too large for a float, and `of_str` ValueError at other texts.
pub record FloatOps : Type 0 where
  pub neg : Float → Float
  pub mul : Float → Float → Float
  pub sum : List Float → Float
  pub sqrt : Float → Float
  pub exp : Float → Float
  pub div : Float → Float → Option Float
  pub of_int : ℤ → Option Float
  pub of_str : List ℕ → Option Float
  pub eq : Float → Float → Bool
  pub lt : Float → Float → Bool
  pub le : Float → Float → Bool
