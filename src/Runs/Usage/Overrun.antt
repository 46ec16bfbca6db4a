-- ===== src/Runs/Usage/Overrun.antt =====
-- After a recording of token usage that passes the limit of the tokens, nothing more is reserved.
use deepscout.Base.{none, some}
use deepscout.Base.Int.{ℤ, pos}
use deepscout.Base.Float.{Float}
use deepscout.Runs.Rows.{ResearchRunRow}

module _ {F : Type 0} (float : Float F) (cost_cap : F) where
  -- The tokens that a run is known to have used.
  abbrev pub tokens_of : ResearchRunRow F → ℤ
  tokens_of run = elim run.consumed_total_tokens [ none ↦ pos 0 | some n ↦ n ]
