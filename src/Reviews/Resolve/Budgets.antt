-- ===== src/Reviews/Resolve/Budgets.antt =====
-- A resolution leaves every run within its limits.
use deepscout.Base.{
  ℕ, String, ◌≡◌, refl, Bool, true, false, not, Option, none, some, List, [], ◌∷◌, ◌++◌, Result, ok,
  err, ◌>>=◌, Ensures, Ensures->>=, Option-cases, Result-cases, Bool-cases, inl, inr, subst,
  ok-injective, get_row, str_eq, if◌then◌else◌,
}
use deepscout.Base.Int.{ℤ}
use deepscout.Base.Float.{Float}
use deepscout.Domain.Enums.{
  ResearchRunStatus, ReviewReasonCode, ReviewDecisionKind, ReviewRequestStatus, is_terminal_run,
}
use deepscout.Runs.{ResearchRunRow, HumanResponse}
use deepscout.Runs.Usage.{RunTables, StoreError, row_id, extend_run_budget, consumption_from_run}
use deepscout.Runs.Usage.History.{IsSound, extend_run_budget-IsSound}
use deepscout.Runs.Status.{update_run_status, set_termination_reason, cancelled_run}
use deepscout.Runs.Status.Laws.{
  AllSound, AllSound-write, update_run_status-AllSound, set_termination_reason-AllSound,
  cancelled-IsSound,
}
use deepscout.Reviews.Rows.{
  Payload, budget_extension_payload, human_input_payload, DecisionPayload, ReviewRequestRow,
  Database,
}
use deepscout.Reviews.Store.{
  cancel_run, cancel_pending_reviews, append_review_event, update_review_status, same_reason,
}
use deepscout.Reviews.Create.{is_valid_payload}
use deepscout.Reviews.Resolve.{
  Decision, ReviewError, ResolveResult, decide, lift_store, apply_budget, set_run, end_run,
  add_response, last_ten, close_review, grant, edit_with, respond_text, respond_with,
  resolve_approve, resolve_edit, resolve_reject, resolve_respond, question_text, edited_payload,
  is_authoritative_approval, ApprovalDecision, not_authoritative, payload_mismatch, invalid_payload,
  respond_not_valid,
}

module _ {F : Type 0} (float : Float F) (cost_cap : F) where
  abbrev pub Sound : RunTables F → Type 0
  Sound = AllSound float cost_cap

  -- The answer of a resolution leaves every run within its limits.
  abbrev pub SoundAnswer : Result ReviewError (Database F × ResolveResult) → Type 0
  SoundAnswer = Ensures (λ (p : Database F × ResolveResult). Sound p.0.run_tables)

  lift-Ensures :
      (m : Result StoreError (RunTables F)) → Ensures Sound m → Ensures Sound (lift_store m)
  lift-Ensures (ok a) h = h
  lift-Ensures (err e) h = tt

  extend-Sound :
      (db : RunTables F) (run_id : ℕ) (i t s : ℤ) (now : ℕ)
      → Sound db
      → Ensures Sound (extend_run_budget float cost_cap db run_id i t s now)
  extend-Sound db run_id i t s now all =
      elim (Result-cases (extend_run_budget float cost_cap db run_id i t s now)) [
        | inr (e, h) ↦ rw h tt
        | inl (db', h) ↦
            rw h (extend_run_budget-IsSound float cost_cap db db' run_id i t s now h all)
      ]

  apply_budget-Sound :
      (db : RunTables F) (run_id : ℕ) (payload : Payload) (now : ℕ)
      → Sound db
      → Ensures Sound (apply_budget float cost_cap db run_id payload now)
  unfolding apply_budget
  apply_budget-Sound db run_id (human_input_payload question) now all = tt
  apply_budget-Sound db run_id (budget_extension_payload p) now all = lift-Ensures _ (
      extend-Sound db run_id p.requested_extra_iterations p.requested_extra_tool_calls
        p.requested_extra_sources now all)

  set_run-Sound :
      (db : RunTables F) (run_id : ℕ) (status : ResearchRunStatus) (reason : Option String)
      (now : ℕ)
      → Sound db
      → Ensures Sound (set_run float cost_cap db run_id status reason now)
  unfolding set_run
  set_run-Sound db run_id status reason now all =
      Ensures->>= Sound Sound (lift_store (update_run_status float cost_cap db run_id status now)) _
        (lift-Ensures _ (update_run_status-AllSound float cost_cap db run_id status now all))
        (λ db' s.
          lift-Ensures _ (set_termination_reason-AllSound float cost_cap db' run_id reason now s))

  end_run-Sound :
      (db : RunTables F) (run_id now : ℕ)
      → Sound db
      → Ensures Sound (end_run float cost_cap db run_id now)
  unfolding end_run
  end_run-Sound db run_id now all =
      Ensures->>= Sound Sound
        (lift_store (set_termination_reason db run_id (some "budget_exhausted") now)) _
        (lift-Ensures _ (
          set_termination_reason-AllSound float cost_cap db run_id (some "budget_exhausted") now
            all))
        (λ db' s. lift-Ensures _ (
          update_run_status-AllSound float cost_cap db' run_id ResearchRunStatus.budget_exhausted
            now s))

  response-IsSound :
      (row : ResearchRunRow F) (responses : List HumanResponse)
      → IsSound float cost_cap row
      → IsSound float cost_cap (record row { human_input_responses = responses })
  unfolding consumption_from_run
  response-IsSound row responses s = s

  add_response-Sound :
      (db : RunTables F) (run_id : ℕ) (response : HumanResponse)
      → Sound db
      → Ensures Sound (add_response db run_id response)
  unfolding add_response
  add_response-Sound db run_id response all = elim (Option-cases (get_row row_id run_id db.runs)) [
    | inl absent ↦ rw (absent, add_response) tt
    | inr (row, found) ↦
        let answers = last_ten (row.human_input_responses ++ response ∷ []) in
        rw (found, add_response)
          (AllSound-write float cost_cap db run_id row
            (record row { human_input_responses = answers }) found (response-IsSound row answers)
            all)
  ]

  pub cancel_run-Sound :
      (db db' : Database F) (run_id now : ℕ)
      → cancel_run db run_id now ≡ ok db'
      → Sound db.run_tables
      → Sound db'.run_tables
  unfolding cancel_run cancel_pending_reviews
  cancel_run-Sound db db' run_id now h all =
      elim (Option-cases (get_row row_id run_id db.run_tables.runs)) [
        | inl n ↦ absurd (cc (rw (n, cancel_run) at h))
        | inr (row, n) ↦ elim (Bool-cases (is_terminal_run row.status)) [
          | inl over ↦
              subst (λ (q : Database F). Sound q.run_tables)
                (ok-injective (rw (n, over, cancel_run) at h)) all
          | inr open_run ↦
              subst (λ (q : Database F). Sound q.run_tables)
                (ok-injective (rw (n, open_run, cancel_run) at h))
                (AllSound-write float cost_cap db.run_tables run_id row (cancelled_run row now) n
                  (cancelled-IsSound float cost_cap row now) all)
        ]
      ]

  module _ (hash : DecisionPayload → String) (db : Database F) (run_id : ℕ)
      (review : ReviewRequestRow) (d : Decision) (now : ℕ) (all : Sound db.run_tables) where
    Sound-if :
        (b : Bool) (x y : Result ReviewError (Database F × ResolveResult))
        → SoundAnswer x
        → SoundAnswer y
        → SoundAnswer (if b then x else y)
    Sound-if true x y hx hy = hx
    Sound-if false x y hx hy = hy

    grant-Sound :
        (payload : Payload) (status : ReviewRequestStatus) (event_type : String)
        → SoundAnswer (grant float cost_cap db run_id review payload status event_type d now)
    unfolding grant close_review update_review_status append_review_event
    grant-Sound payload status event_type =
        Ensures->>= Sound (λ (p : Database F × ResolveResult). Sound p.0.run_tables)
          (apply_budget float cost_cap db.run_tables run_id payload now >>= λ extended.
            set_run float cost_cap extended run_id ResearchRunStatus.pending none now)
          _
          (Ensures->>= Sound Sound (apply_budget float cost_cap db.run_tables run_id payload now) _
            (apply_budget-Sound db.run_tables run_id payload now all)
            (λ extended s. set_run-Sound extended run_id ResearchRunStatus.pending none now s))
          (λ tables s. s)

    edit-Sound :
        (given_payload : Option DecisionPayload) (payload : Payload)
        → SoundAnswer (edit_with float cost_cap db run_id review d now given_payload payload)
    unfolding edit_with
    edit-Sound none payload = tt
    edit-Sound (some g) (human_input_payload question) = tt
    edit-Sound (some g) (budget_extension_payload p) =
        let asked = budget_extension_payload (edited_payload p g) in
        Sound-if (is_valid_payload (edited_payload p g))
          (grant float cost_cap db run_id review asked ReviewRequestStatus.edited "edited" d now)
          (err invalid_payload) (grant-Sound asked ReviewRequestStatus.edited "edited") tt

    text-Sound :
        (p : DecisionPayload) (text : Option String)
        → SoundAnswer (respond_text float cost_cap db run_id review d now p text)
    unfolding respond_text close_review update_review_status append_review_event
    text-Sound p none = tt
    text-Sound p (some text) =
        let response : HumanResponse = record {
          review_id = review.id;
          question = question_text review.proposed_action_payload;
          response = text;
        } in
        Ensures->>= Sound (λ (p : Database F × ResolveResult). Sound p.0.run_tables)
          (lift_store (add_response db.run_tables run_id response) >>= λ answered.
            set_run float cost_cap answered run_id ResearchRunStatus.pending none now)
          _
          (Ensures->>= Sound Sound (lift_store (add_response db.run_tables run_id response)) _
            (lift-Ensures _ (add_response-Sound db.run_tables run_id response all))
            (λ answered s. set_run-Sound answered run_id ResearchRunStatus.pending none now s))
          (λ tables s. s)

    respond-Sound :
        (payload : Option DecisionPayload)
        → SoundAnswer (respond_with float cost_cap db run_id review d now payload)
    unfolding respond_with
    respond-Sound none = tt
    respond-Sound (some p) = text-Sound p p.response

    cancel-Sound :
        (mid : Database F) (m : Result StoreError (Database F)) (result : ResolveResult)
        → cancel_run mid run_id now ≡ m
        → Sound mid.run_tables
        → SoundAnswer (lift_store m >>= λ db'. ok (db', result))
    cancel-Sound mid (err e) result h s = tt
    cancel-Sound mid (ok db') result h s = cancel_run-Sound mid db' run_id now h s

    reject-Sound : SoundAnswer (resolve_reject float cost_cap db run_id review d now)
    unfolding resolve_reject close_review update_review_status append_review_event
    reject-Sound =
        Sound-if (str_eq d.rejection_outcome "CANCEL_RUN") _ _ (cancel-Sound _ _ _ refl all) (
          Ensures->>= Sound (λ (p : Database F × ResolveResult). Sound p.0.run_tables)
            (end_run float cost_cap db.run_tables run_id now) _
            (end_run-Sound db.run_tables run_id now all) (λ tables s. s))

    abbrev trusted : Bool
    trusted = is_authoritative_approval (some ApprovalDecision.approved) d.source d.reason

    pub decide-Sound :
        (kind : ReviewDecisionKind)
        → SoundAnswer (decide float cost_cap hash db run_id review d now kind)
    unfolding decide resolve_approve resolve_edit resolve_respond
    decide-Sound ReviewDecisionKind.approve =
        let payload = review.proposed_action_payload in
        let granted =
          grant float cost_cap db run_id review payload ReviewRequestStatus.approved "approved" d
            now in
        let matches : Bool = elim d.payload [
          | none ↦ true
          | some p ↦ str_eq (hash p) review.payload_hash
        ] in
        Sound-if (not trusted) (err not_authoritative)
          (if not matches then err payload_mismatch else granted) tt
          (Sound-if (not matches) (err payload_mismatch) granted tt
            (grant-Sound payload ReviewRequestStatus.approved "approved"))
    decide-Sound ReviewDecisionKind.edit =
        Sound-if (not trusted) (err not_authoritative)
          (edit_with float cost_cap db run_id review d now d.payload review.proposed_action_payload)
          tt (edit-Sound d.payload review.proposed_action_payload)
    decide-Sound ReviewDecisionKind.reject = reject-Sound
    decide-Sound ReviewDecisionKind.respond =
        Sound-if (not (same_reason review.reason_code ReviewReasonCode.human_input_required))
          (err respond_not_valid) (respond_with float cost_cap db run_id review d now d.payload) tt
          (respond-Sound d.payload)
