-- ===== src/Budget/Ledger.antt =====
-- `BudgetLedger` of budget.py.
use deepscout.Base.{ℕ, String, List, [], ◌∷◌, ◌++◌, Result, ok, err, if◌then◌else◌}
use deepscout.Base.Int.{pos, ◌+ℤ◌}
use deepscout.Base.Float.{Float}
use deepscout.Domain.Enums.{BudgetMetric}
use deepscout.Budget.Limits.{
  ResearchBudget, BudgetConsumption, would_exceed, same_metric, add_tokens, add_cost,
}

pub record BudgetLedgerEntry (F : Type 0) : Type 0 where
  pub metric : BudgetMetric
  pub delta : F
  pub recorded_at : ℕ
  pub note : String

pub record BudgetLedger (F : Type 0) : Type 0 where
  pub budget : ResearchBudget F
  pub consumption : BudgetConsumption F
  pub entries : List (BudgetLedgerEntry F)

pub data LedgerError : Type 0 where
  negative_delta budget_exhausted : LedgerError

module _ {F : Type 0} (float : Float F) where
  -- `updated` of `record`.
  unfoldable pub updated_consumption : BudgetConsumption F → BudgetMetric → F → BudgetConsumption F
  unfolding same_metric
  updated_consumption c metric delta = record {
    iterations =
        c.iterations
        +ℤ (if same_metric metric BudgetMetric.iterations then float.truncate delta else pos 0);
    wall_time_seconds =
        c.wall_time_seconds
        +ℤ (if same_metric metric BudgetMetric.wall_time then float.truncate delta else pos 0);
    total_tokens =
        if same_metric metric BudgetMetric.tokens
        then add_tokens float c.total_tokens delta
        else c.total_tokens;
    cost_usd =
        if same_metric metric BudgetMetric.cost
        then add_cost float c.cost_usd delta
        else c.cost_usd;
    sources =
        c.sources
        +ℤ (if same_metric metric BudgetMetric.sources then float.truncate delta else pos 0);
    tool_calls =
        c.tool_calls
        +ℤ (if same_metric metric BudgetMetric.tool_calls then float.truncate delta else pos 0);
  }

  -- `BudgetLedger.record`: the ledger after the call, which an exception leaves as it was.
  unfoldable pub record_use :
      BudgetLedger F
      → BudgetMetric
      → F
      → (note : String) (now : ℕ) → Result LedgerError (BudgetLedger F)
  record_use ledger metric delta note now =
      if float.flt delta float.fzero
      then err negative_delta
      else if would_exceed float ledger.consumption ledger.budget metric delta
      then err budget_exhausted
      else ok (record ledger {
        consumption = updated_consumption ledger.consumption metric delta;
        entries =
            ledger.entries
            ++ record { metric = metric; delta = delta; recorded_at = now; note = note } ∷ [];
      })
