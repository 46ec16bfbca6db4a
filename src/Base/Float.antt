-- ===== src/Base/Float.antt =====
-- What the program relies on of Python's `float`: a zero, sums, the order, and `int(x)`.
-- The laws are those of finite IEEE doubles; sums are not associative and none is assumed to be.
use deepscout.Base.{◌≡◌, Bool, false}
use deepscout.Base.Int.{ℤ, pos, ◌≤ℤ◌}

pub record Float (F : Type 0) : Type 0 where
  pub fzero : F
  pub fadd : F → F → F
  pub flt : F → F → Bool
  pub truncate : F → ℤ
  -- adding a number that is not negative does not lower a sum
  pub fadd_grows : (a d : F) → flt d fzero ≡ false → flt (fadd a d) a ≡ false
  -- zero plus a number is that number, to the order
  pub lt-fadd-fzero : (l d : F) → flt l (fadd fzero d) ≡ flt l d
  -- the integer part of a number that is not negative is not negative
  pub truncate_nonneg : (d : F) → flt d fzero ≡ false → pos 0 ≤ℤ truncate d
