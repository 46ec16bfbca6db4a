-- ===== src/Reviews/Resolve/System.antt =====
-- Reviews and budgets together: what is reserved before it is used never passes its limit.
use deepscout.Base.{ℕ, String, ◌≡◌, sym, Option, ok, Ensures, inl, inr, subst}
use deepscout.Base.Float.{Float}
use deepscout.Domain.Enums.{ResearchRunStatus}
use deepscout.Runs.Usage.History.{Step, Step-IsSound}
use deepscout.Runs.Status.{update_run_status, set_termination_reason}
use deepscout.Runs.Status.Laws.{
  AllSound, update_run_status-AllSound, set_termination_reason-AllSound,
}
use deepscout.Reviews.Rows.{DecisionPayload, Database}
use deepscout.Reviews.Store.{cancel_run}
use deepscout.Reviews.Resolve.{Decision, ResolveResult, resolve_review}
use deepscout.Reviews.Resolve.Inversion.{resolve_review-cases}
use deepscout.Reviews.Resolve.Budgets.{SoundAnswer, decide-Sound, cancel_run-Sound}

module _ {F : Type 0} (float : Float F) (cost_cap : F) (hash : DecisionPayload → String) where
  -- A committed call that concerns the runs: a use or an extension of a budget, a recording of token
  -- usage, a resolution of a review, a change of status, or a cancellation.
  pub data SystemCall (db db' : Database F) : Type 0 where
    budget : Step float cost_cap db.run_tables db'.run_tables → SystemCall db db'
    resolved :
        (run_id id : ℕ) (d : Decision) (now : ℕ) (r : ResolveResult)
        → resolve_review float cost_cap hash db run_id id d now ≡ ok (db', r)
        → SystemCall db db'
    status :
        (run_id now : ℕ) (new : ResearchRunStatus)
        → update_run_status float cost_cap db.run_tables run_id new now ≡ ok db'.run_tables
        → SystemCall db db'
    reason :
        (run_id now : ℕ) (text : Option String)
        → set_termination_reason db.run_tables run_id text now ≡ ok db'.run_tables
        → SystemCall db db'
    cancelled : (run_id now : ℕ) → cancel_run db run_id now ≡ ok db' → SystemCall db db'
    elsewhere : db'.run_tables ≡ db.run_tables → SystemCall db db'

  pub data SystemHistory (db : Database F) : Database F → Type 0 where
    start : SystemHistory db db
    later :
        {mid db' : Database F} → SystemHistory db mid → SystemCall mid db' → SystemHistory db db'

  call-Sound :
      {db db' : Database F}
      → SystemCall db db'
      → AllSound float cost_cap db.run_tables
      → AllSound float cost_cap db'.run_tables
  call-Sound {db} {db'} (budget step) all =
      Step-IsSound float cost_cap db.run_tables db'.run_tables step all
  call-Sound {db} {db'} (resolved run_id id d now r h) all =
      elim (resolve_review-cases float cost_cap hash db db' run_id id d now r h) [
        | inl same ↦
            subst (λ (q : Database F). AllSound float cost_cap q.run_tables) (sym same.unchanged)
              all
        | inr (review, a, e) ↦
            subst (SoundAnswer float cost_cap) e
              (decide-Sound float cost_cap hash db run_id review d now all d.kind)
      ]
  call-Sound {db} {db'} (status run_id now new h) all =
      subst (Ensures (AllSound float cost_cap)) h
        (update_run_status-AllSound float cost_cap db.run_tables run_id new now all)
  call-Sound {db} {db'} (reason run_id now text h) all =
      subst (Ensures (AllSound float cost_cap)) h
        (set_termination_reason-AllSound float cost_cap db.run_tables run_id text now all)
  call-Sound {db} {db'} (cancelled run_id now h) all =
      cancel_run-Sound float cost_cap db db' run_id now h all
  call-Sound {db} {db'} (elsewhere e) all = subst (AllSound float cost_cap) (sym e) all

  -- Whatever calls are committed, in any order and on any runs (uses and extensions of budgets,
  -- recordings of token usage, resolutions of reviews, changes of status and cancellations), the
  -- iterations, wall time, sources and tool calls that each run has used stay within the limits of
  -- its row, where they were so at first. Nothing is said of tokens and cost, which are recorded
  -- after their use.
  pub SystemHistory-AllSound :
      {db db' : Database F}
      → SystemHistory db db'
      → AllSound float cost_cap db.run_tables
      → AllSound float cost_cap db'.run_tables
  SystemHistory-AllSound start all = all
  SystemHistory-AllSound (later h call) all = call-Sound call (SystemHistory-AllSound h all)
