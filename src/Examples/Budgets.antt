-- ===== src/Examples/Budgets.antt =====
-- Budgets, ledgers and runs at concrete numbers.
use deepscout.Base.{
  ◌≡◌, refl, ◌↔◌, get_row, set_row, arith, false, some, none, [], ◌∷◌, ◌++◌, ok, err, All,
}
use deepscout.Base.Int.{ℤ, pos, ◌+ℤ◌}
use deepscout.Domain.Enums.{
  BudgetMetric, ResearchRunStatus, UsageReportStatus, CostReportStatus, AgentRole, ResearchPhase,
}
use deepscout.Budget.{
  ResearchBudget, post_init, would_exceed, same_metric, updated_consumption, BudgetLedger,
  record_use, no_consumption, budget_exhausted,
}
use deepscout.Budget.Bounds.{
  WithinLimits, record_use-WithinLimits, record_use-budget_exhausted_iff, record_use-replay, replay,
}
use deepscout.Budget.Construction.{IsAllowed, post_init_iff}
use deepscout.Runs.{ResearchRunRow, TokenUsageRecord}
use deepscout.Runs.Usage.{
  RunTables, budget_from_run, consumption_from_run, charge_row, record_budget_usage,
  write_consumption_to_run, apply_budget_delta,
}
use deepscout.Runs.Usage.Tokens.{
  record_token_usage, count_tokens, count_cost, is_evaluator, is_unknown_cost,
}
use deepscout.Runs.Usage.Laws.{charge_row-refines, store_verdict, ledger_verdict}
use deepscout.Runs.Usage.History.{IsSound}
use deepscout.Examples.Numbers.{whole}

abbrev budget : ResearchBudget ℤ
budget = record {
  max_iterations = pos 5;
  max_wall_time_seconds = pos 600;
  max_total_tokens = pos 1_000;
  max_cost_usd = pos 2;
  max_sources = pos 10;
  max_tool_calls = pos 3;
}

abbrev ledger : BudgetLedger ℤ
ledger = record { budget = budget; consumption = no_consumption; entries = [] }

abbrev ledger_after : BudgetLedger ℤ
ledger_after = record {
  budget = budget;
  consumption = record {
    iterations = pos 0;
    wall_time_seconds = pos 0;
    total_tokens = none;
    cost_usd = none;
    sources = pos 0;
    tool_calls = pos 2;
  };
  entries =
      record { metric = BudgetMetric.tool_calls; delta = pos 2; recorded_at = 7; note = "search" }
      ∷ [];
}

recorded : record_use whole ledger BudgetMetric.tool_calls (pos 2) "search" 7 ≡ ok ledger_after
unfolding record_use would_exceed updated_consumption same_metric ◌+ℤ◌
recorded = refl

record_use-WithinLimits_example :
    WithinLimits whole budget ledger_after.consumption
    × (budget ≡ budget)
    × (ledger_after.entries
        ≡ []
          ++ record {
            metric = BudgetMetric.tool_calls;
            delta = pos 2;
            recorded_at = 7;
            note = "search";
          }
            ∷ [])
record_use-WithinLimits_example =
    record_use-WithinLimits whole ledger ledger_after BudgetMetric.tool_calls (pos 2) "search" 7
      recorded

replay_nothing : no_consumption ≡ replay whole []
unfolding replay
replay_nothing = refl

record_use-replay_example : ledger_after.consumption ≡ replay whole ledger_after.entries
record_use-replay_example =
    record_use-replay whole ledger ledger_after BudgetMetric.tool_calls (pos 2) "search" 7
      replay_nothing recorded

record_use-budget_exhausted_iff_example :
    (record_use whole ledger BudgetMetric.tool_calls (pos 4) "search" 7 ≡ err budget_exhausted) ↔ (
      (whole.flt (pos 4) whole.fzero ≡ false)
      × ¬ WithinLimits whole budget
          (updated_consumption whole no_consumption BudgetMetric.tool_calls (pos 4)))
record_use-budget_exhausted_iff_example =
    record_use-budget_exhausted_iff whole ledger BudgetMetric.tool_calls (pos 4) "search" 7

post_init_iff_example :
    (post_init whole (pos 1_000) budget ≡ ok budget) ↔ IsAllowed whole (pos 1_000) budget
post_init_iff_example = post_init_iff whole (pos 1_000) budget

abbrev pub run : ResearchRunRow ℤ
run = record {
  id = 1;
  status = ResearchRunStatus.running;
  max_iterations = pos 5;
  max_wall_time_seconds = pos 600;
  max_total_tokens = pos 1_000;
  max_cost_usd = pos 2;
  max_sources = pos 10;
  max_tool_calls = pos 3;
  consumed_iterations = pos 0;
  consumed_wall_time_seconds = pos 0;
  consumed_total_tokens = none;
  consumed_cost_usd = none;
  consumed_sources = pos 0;
  consumed_tool_calls = pos 0;
  termination_reason = none;
  concurrency_limit = 2;
  created_at = 0;
  updated_at = 0;
  started_at = some 0;
  completed_at = none;
  replans_used = 0;
  human_input_responses = [];
  usage_report_status = UsageReportStatus.unknown;
  cost_report_status = CostReportStatus.unknown;
  pricing_version = none;
}

run_budget : budget_from_run whole (pos 1_000) run ≡ ok budget
unfolding budget_from_run post_init
run_budget = refl

run_consumption : consumption_from_run run ≡ no_consumption
unfolding consumption_from_run
run_consumption = refl

charge_row-refines_example :
    store_verdict whole
      (pos 1_000)
      (charge_row whole (pos 1_000) run BudgetMetric.tool_calls (pos 2) 7)
    ≡ ledger_verdict whole
        (pos 1_000)
        (record_use whole ledger BudgetMetric.tool_calls (pos 2) "search" 7)
charge_row-refines_example =
    charge_row-refines whole (pos 1_000) run ledger BudgetMetric.tool_calls (pos 2) "search" 7
      run_budget run_consumption refl

abbrev db : RunTables ℤ
db = record { runs = run ∷ []; ledger_entries = []; token_usage_records = [] }

abbrev db_after : RunTables ℤ
db_after = record {
  runs = record run { consumed_tool_calls = pos 2; updated_at = 7 } ∷ [];
  ledger_entries =
      record {
        research_run_id = 1;
        metric = BudgetMetric.tool_calls;
        delta = pos 2;
        note = "search";
      }
      ∷ [];
  token_usage_records = [];
}

usage :
    record_budget_usage whole (pos 1_000) db 1 BudgetMetric.tool_calls (pos 2) "search" 7
    ≡ ok db_after
unfolding record_budget_usage charge_row would_exceed apply_budget_delta same_metric ◌+ℤ◌
    budget_from_run post_init consumption_from_run write_consumption_to_run get_row set_row
usage = refl

pub run-IsSound : All (IsSound whole (pos 1_000)) (run ∷ [])
run-IsSound = ((omega arith, omega arith, omega arith, omega arith), tt)

-- A call of a model that takes the run past its limit of 1000 tokens.
abbrev report : TokenUsageRecord
report = record {
  research_run_id = 1;
  phase = ResearchPhase.plan;
  agent_role = AgentRole.planner;
  provider = "openai";
  model = "small";
  input_tokens = some (pos 1_200);
  output_tokens = some (pos 300);
  cached_input_tokens = none;
  reasoning_tokens = none;
  total_tokens = some (pos 1_500);
  task_id = none;
  worker_id = none;
  iteration = none;
  retry = 0;
  report_status = UsageReportStatus.complete;
}

abbrev db_over : RunTables ℤ
db_over = record {
  runs =
      record run {
        consumed_total_tokens = some (pos 1_500);
        consumed_cost_usd = some (pos 1);
        usage_report_status = UsageReportStatus.partial;
        cost_report_status = CostReportStatus.known;
        pricing_version = some "v1";
        updated_at = 8;
      }
      ∷ [];
  ledger_entries = [];
  token_usage_records =
      record {
        usage = report;
        cost_usd = some (pos 1);
        cost_report_status = CostReportStatus.known;
        pricing_version = some "v1";
      }
      ∷ [];
}

reported :
    record_token_usage whole db report (some "v1") (some (pos 1)) (some CostReportStatus.known) 8
    ≡ ok db_over
unfolding record_token_usage count_tokens count_cost is_evaluator is_unknown_cost ◌+ℤ◌ get_row
    set_row
reported = refl
