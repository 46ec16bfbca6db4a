-- ===== src/Runs/Usage/Tokens.antt =====
-- `record_token_usage`: the tokens and the cost of a call of a model, which are known only after the
-- call, are added to the run without a check of its limits.
use deepscout.Base.{
  ℕ, String, ◌≡◌, Bool, true, false, not, ◌&&◌, Option, none, some, [], ◌∷◌, ◌++◌, Result, ok, err,
  if◌then◌else◌, get_row, set_row, str_eq, Option-cases, inl, inr, ok-injective, ap,
}
use deepscout.Base.Int.{pos, ◌+ℤ◌}
use deepscout.Base.Float.{Float}
use deepscout.Domain.Enums.{AgentRole, UsageReportStatus, CostReportStatus}
use deepscout.Runs.Rows.{ResearchRunRow, TokenUsageRecord}
use deepscout.Runs.Usage.{RunTables, StoreError, run_not_found, row_id}

unfoldable pub is_evaluator : AgentRole → Bool
is_evaluator AgentRole.evaluator = true
is_evaluator _ = false

unfoldable pub is_unknown_cost : CostReportStatus → Bool
is_unknown_cost CostReportStatus.unknown = true
is_unknown_cost _ = false

-- `cost_status or CostReportStatus.UNKNOWN`
abbrev pub resolved : Option CostReportStatus → CostReportStatus
resolved none = CostReportStatus.unknown
resolved (some status) = status

-- `new or old`: an empty text counts as none.
abbrev pub or_text : Option String → Option String → Option String
or_text none old = old
or_text (some t) old = if str_eq t "" then old else some t

module _ {F : Type 0} where
  -- The tokens: `(run.consumed_total_tokens or 0) + usage.total_tokens`.
  unfoldable pub count_tokens : ResearchRunRow F → TokenUsageRecord → (now : ℕ) → ResearchRunRow F
  unfolding is_evaluator
  count_tokens run usage now = elim usage.total_tokens [
    | none ↦ run
    | some total ↦ if is_evaluator usage.agent_role then run else record run {
      consumed_total_tokens =
          some (elim run.consumed_total_tokens [ none ↦ pos 0 | some n ↦ n ] +ℤ total);
      usage_report_status = UsageReportStatus.partial;
      updated_at = now;
    }
  ]

module _ {F : Type 0} (float : Float F) where
  -- The cost, unless its status is unknown.
  unfoldable pub count_cost :
      ResearchRunRow F
      → TokenUsageRecord
      → (pricing_version : Option String) → (cost_usd : Option F) → CostReportStatus
      → (now : ℕ) → ResearchRunRow F
  unfolding is_evaluator is_unknown_cost
  count_cost run usage pricing_version cost_usd status now = elim cost_usd [
    | none ↦ run
    | some cost ↦
        if not (is_evaluator usage.agent_role) && not (is_unknown_cost status)
        then record run {
          consumed_cost_usd =
              some
                (float.fadd (elim run.consumed_cost_usd [ none ↦ float.fzero | some c ↦ c ]) cost);
          pricing_version = or_text pricing_version run.pricing_version;
          cost_report_status =
              if is_unknown_cost run.cost_report_status then status else run.cost_report_status;
          updated_at = now;
        }
        else run
  ]

  unfoldable pub record_token_usage :
      RunTables F
      → TokenUsageRecord
      → (pricing_version : Option String) → (cost_usd : Option F)
      → (cost_status : Option CostReportStatus) → (now : ℕ) → Result StoreError (RunTables F)
  record_token_usage db usage pricing_version cost_usd cost_status now =
      elim (get_row row_id usage.research_run_id db.runs) [
        | none ↦ err run_not_found
        | some run ↦
            let status = resolved cost_status in
            ok (record db {
              runs =
                  set_row row_id
                    (count_cost (count_tokens run usage now) usage pricing_version cost_usd status
                      now)
                    db.runs;
              token_usage_records =
                  db.token_usage_records
                  ++ record {
                    usage = usage;
                    cost_usd = cost_usd;
                    cost_report_status = status;
                    pricing_version = pricing_version;
                  }
                    ∷ [];
            })
      ]

  pub record_token_usage-eq-ok :
      (db : RunTables F) {db' : RunTables F} (usage : TokenUsageRecord)
      (pricing_version : Option String) (cost_usd : Option F)
      (cost_status : Option CostReportStatus) (now : ℕ)
      → record_token_usage db usage pricing_version cost_usd cost_status now ≡ ok db'
      → (run : ResearchRunRow F) × (get_row row_id usage.research_run_id db.runs ≡ some run)
        × (set_row row_id
              (count_cost
                (count_tokens run usage now)
                usage
                pricing_version
                cost_usd
                (resolved cost_status)
                now)
              db.runs
            ≡ db'.runs)
  unfolding record_token_usage
  record_token_usage-eq-ok db usage pricing_version cost_usd cost_status now h =
      elim (Option-cases (get_row row_id usage.research_run_id db.runs)) [
        | inl absent ↦ absurd (cc (rw (absent, record_token_usage) at h))
        | inr (run, found) ↦ (
          run,
          found,
          ap (λ (t : RunTables F). t.runs) (ok-injective (rw (found, record_token_usage) at h)),
        )
      ]
