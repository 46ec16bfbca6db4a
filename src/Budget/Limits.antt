-- ===== src/Budget/Limits.antt =====
-- `ResearchBudget` and `BudgetConsumption` of budget.py. A Python `int` is ℤ, a `float` is a type
-- with the operations of `Float`.
use deepscout.Base.{
  Bool, true, false, ◌||◌, Option, none, some, Result, ok, ◌>>◌, raise_if, if◌then◌else◌,
}
use deepscout.Base.Int.{ℤ, pos, ◌+ℤ◌, ◌-ℤ◌, ltb_ℤ, leb_ℤ}
use deepscout.Base.Float.{Float}
use deepscout.Domain.Enums.{BudgetMetric}

pub record ResearchBudget (F : Type 0) : Type 0 where
  pub max_iterations : ℤ
  pub max_wall_time_seconds : ℤ
  pub max_total_tokens : ℤ
  pub max_cost_usd : F
  pub max_sources : ℤ
  pub max_tool_calls : ℤ

pub data BudgetField : Type 0 where
  max_iterations max_wall_time_seconds max_total_tokens max_cost_usd : BudgetField
  max_sources max_tool_calls : BudgetField

-- The ValueError of `__post_init__`, with the field that its message names.
pub data ValueError : Type 0 where
  must_be_non_negative must_not_exceed : BudgetField → ValueError

pub record BudgetConsumption (F : Type 0) : Type 0 where
  pub iterations : ℤ
  pub wall_time_seconds : ℤ
  pub total_tokens : Option ℤ
  pub cost_usd : Option F
  pub sources : ℤ
  pub tool_calls : ℤ

abbrev pub no_consumption : {F : Type 0} → BudgetConsumption F
no_consumption = record {
  iterations = pos 0;
  wall_time_seconds = pos 0;
  total_tokens = none;
  cost_usd = none;
  sources = pos 0;
  tool_calls = pos 0;
}

unfoldable pub same_metric : BudgetMetric → BudgetMetric → Bool
same_metric BudgetMetric.iterations BudgetMetric.iterations = true
same_metric BudgetMetric.wall_time BudgetMetric.wall_time = true
same_metric BudgetMetric.tokens BudgetMetric.tokens = true
same_metric BudgetMetric.cost BudgetMetric.cost = true
same_metric BudgetMetric.sources BudgetMetric.sources = true
same_metric BudgetMetric.tool_calls BudgetMetric.tool_calls = true
same_metric _ _ = false

-- `limit is not None and used >= limit` and `… > limit`, at an `int | None`.
abbrev pub reached_ℤ : Option ℤ → ℤ → Bool
reached_ℤ none limit = false
reached_ℤ (some used) limit = leb_ℤ limit used

abbrev pub exceeds_ℤ : Option ℤ → ℤ → Bool
exceeds_ℤ none limit = false
exceeds_ℤ (some used) limit = ltb_ℤ limit used

module _ {F : Type 0} (float : Float F) where
  -- `ResearchBudget.__post_init__`: the `max_cost_usd` bound of 1000.0 is an argument.
  unfoldable pub post_init : F → ResearchBudget F → Result ValueError (ResearchBudget F)
  post_init cost_cap b =
      raise_if (ltb_ℤ b.max_iterations (pos 0)) (must_be_non_negative max_iterations)
      >> (raise_if (ltb_ℤ b.max_wall_time_seconds (pos 0))
            (must_be_non_negative max_wall_time_seconds)
          >> (raise_if (ltb_ℤ b.max_total_tokens (pos 0)) (must_be_non_negative max_total_tokens)
              >> (raise_if (ltb_ℤ b.max_sources (pos 0)) (must_be_non_negative max_sources)
                  >> (raise_if (ltb_ℤ b.max_tool_calls (pos 0))
                        (must_be_non_negative max_tool_calls)
                      >> (raise_if (float.flt b.max_cost_usd float.fzero)
                            (must_be_non_negative max_cost_usd)
                          >> (raise_if (ltb_ℤ (pos 100) b.max_iterations)
                                (must_not_exceed max_iterations)
                              >> (raise_if (ltb_ℤ (pos 86_400) b.max_wall_time_seconds)
                                    (must_not_exceed max_wall_time_seconds)
                                  >> (raise_if (ltb_ℤ (pos 10_000_000) b.max_total_tokens)
                                        (must_not_exceed max_total_tokens)
                                      >> (raise_if (float.flt cost_cap b.max_cost_usd)
                                            (must_not_exceed max_cost_usd)
                                          >> (raise_if (ltb_ℤ (pos 10_000) b.max_sources)
                                                (must_not_exceed max_sources)
                                              >> (raise_if (ltb_ℤ (pos 20_000) b.max_tool_calls)
                                                    (must_not_exceed max_tool_calls)
                                                  >> ok b)))))))))))

  -- `a >= b` on floats.
  abbrev pub fge : F → F → Bool
  fge a b = if float.flt a b then false else true

  abbrev pub reached_cost : Option F → F → Bool
  reached_cost none limit = false
  reached_cost (some used) limit = fge used limit

  abbrev pub exceeds_cost : Option F → F → Bool
  exceeds_cost none limit = false
  exceeds_cost (some used) limit = float.flt limit used

  unfoldable pub is_exhausted : BudgetConsumption F → ResearchBudget F → Bool
  is_exhausted c budget =
      leb_ℤ budget.max_iterations c.iterations
      || (leb_ℤ budget.max_wall_time_seconds c.wall_time_seconds
          || (reached_ℤ c.total_tokens budget.max_total_tokens
              || (reached_cost c.cost_usd budget.max_cost_usd
                  || (leb_ℤ budget.max_sources c.sources
                      || leb_ℤ budget.max_tool_calls c.tool_calls))))

  -- `n + int(delta) if metric == m else n`
  abbrev pub bump : ℤ → BudgetMetric → BudgetMetric → F → ℤ
  bump n m metric delta = if same_metric metric m then n +ℤ float.truncate delta else n

  abbrev pub add_tokens : Option ℤ → F → Option ℤ
  add_tokens none delta = some (float.truncate delta)
  add_tokens (some n) delta = some (n +ℤ float.truncate delta)

  abbrev pub add_cost : Option F → F → Option F
  add_cost none delta = some delta
  add_cost (some c) delta = some (float.fadd c delta)

  -- `(self.cost_usd or 0.0) + delta`
  abbrev pub add_cost_or_zero : Option F → F → Option F
  add_cost_or_zero none delta = some (float.fadd float.fzero delta)
  add_cost_or_zero (some c) delta = some (float.fadd c delta)

  unfoldable pub would_exceed : BudgetConsumption F → ResearchBudget F → BudgetMetric → F → Bool
  unfolding same_metric
  would_exceed c budget metric delta =
      let next_tokens =
        if same_metric metric BudgetMetric.tokens
        then add_tokens c.total_tokens delta
        else c.total_tokens in
      let next_cost =
        if same_metric metric BudgetMetric.cost
        then add_cost_or_zero c.cost_usd delta
        else c.cost_usd in
      ltb_ℤ budget.max_iterations (bump c.iterations BudgetMetric.iterations metric delta)
      || (ltb_ℤ budget.max_wall_time_seconds
            (bump c.wall_time_seconds BudgetMetric.wall_time metric delta)
          || (exceeds_ℤ next_tokens budget.max_total_tokens
              || (exceeds_cost next_cost budget.max_cost_usd
                  || (ltb_ℤ budget.max_sources (bump c.sources BudgetMetric.sources metric delta)
                      || ltb_ℤ budget.max_tool_calls
                          (bump c.tool_calls BudgetMetric.tool_calls metric delta)))))

-- `BudgetConsumption.remaining`: what is left, with None where the use is unknown.
pub record Remaining (F : Type 0) : Type 0 where
  pub iterations : ℤ
  pub wall_time : ℤ
  pub tokens : Option ℤ
  pub cost : Option F
  pub sources : ℤ
  pub tool_calls : ℤ

-- Subtraction of floats is an argument: nothing else here subtracts them.
unfoldable pub remaining :
    {F : Type 0} → (F → F → F) → BudgetConsumption F → ResearchBudget F → Remaining F
remaining fsub c budget = record {
  iterations = budget.max_iterations -ℤ c.iterations;
  wall_time = budget.max_wall_time_seconds -ℤ c.wall_time_seconds;
  tokens = elim c.total_tokens [ none ↦ none | some n ↦ some (budget.max_total_tokens -ℤ n) ];
  cost = elim c.cost_usd [ none ↦ none | some x ↦ some (fsub budget.max_cost_usd x) ];
  sources = budget.max_sources -ℤ c.sources;
  tool_calls = budget.max_tool_calls -ℤ c.tool_calls;
}
