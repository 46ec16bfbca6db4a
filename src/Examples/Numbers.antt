-- ===== src/Examples/Numbers.antt =====
-- Whole numbers as an instance of what is asked of `float`.
use deepscout.Base.{◌≡◌, false, arith}
use deepscout.Base.Int.{ℤ, pos, ◌+ℤ◌, ◌≤ℤ◌, ltb_ℤ, +ℤ_parts}
use deepscout.Base.Float.{Float}
use deepscout.Tasks.Allocation.{Thresholds}

pub grows : (a d : ℤ) → ltb_ℤ d (pos 0) ≡ false → ltb_ℤ (a +ℤ d) a ≡ false
grows a d h = ground (arith, +ℤ_parts a d)

pub from_zero : (l d : ℤ) → ltb_ℤ l (pos 0 +ℤ d) ≡ ltb_ℤ l d
from_zero l d = ground (arith, +ℤ_parts (pos 0) d)

pub nonneg : (d : ℤ) → ltb_ℤ d (pos 0) ≡ false → pos 0 ≤ℤ d
nonneg d h = ground arith

abbrev pub whole : Float ℤ
whole = record {
  fzero = pos 0;
  fadd = λ a b. a +ℤ b;
  flt = λ a b. ltb_ℤ a b;
  truncate = λ a. a;
  fadd_grows = grows;
  lt-fadd-fzero = from_zero;
  truncate_nonneg = nonneg;
}

-- The thresholds in hundredths.
abbrev pub hundredths : Thresholds ℤ
hundredths = record { zero = pos 0; one = pos 100; wide_at = pos 55; sequential_below = pos 35 }
