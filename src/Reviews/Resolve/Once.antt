-- ===== src/Reviews/Resolve/Once.antt =====
-- A review's decision is applied at most once, whatever happens in between.
use deepscout.Base.{
  ℕ, String, ◌≡◌, refl, sym, ◌∙◌, true, false, [], ◌∷◌, ok, err, Result-cases, ◌⊎◌, Option-cases,
  Bool-cases, inl, inr, subst, ok-injective, Found, Found-append, some-injective,
}
use deepscout.Base.Int.{ℤ}
use deepscout.Base.Float.{Float}
use deepscout.Domain.Enums.{ReviewReasonCode}
use deepscout.Runs.{ResearchRunRow}
use deepscout.Reviews.Rows.{Payload, DecisionPayload, ReviewRequestRow, Database, review_id}
use deepscout.Reviews.Store.{get_pending_review, append_review_event, cancel_run}
use deepscout.Reviews.Create.{
  HitlSettings, CreateError, add_review, pending_or_new, create_budget_extension_review,
  create_human_input_review, lock_run, evaluate_policy, requires_review, is_valid_payload,
  extension_payload,
}
use deepscout.Reviews.Resolve.{Decision, ResolveResult, resolve_review}
use deepscout.Reviews.Resolve.Inversion.{resolve_review-cases}
use deepscout.Reviews.Resolve.Closing.{is_closed, IsClosed, cancel_run-keeps, decide-IsClosed}

module _ {F : Type 0} where
  add_review-keeps :
      (key : ℕ) (db : Database F) (review : ReviewRequestRow)
      → IsClosed key db
      → IsClosed key (add_review db review)
  unfolding add_review append_review_event
  add_review-keeps key db review c = Found-append review_id is_closed key db.reviews (review ∷ []) c

  pending_or_new-keeps :
      (key : ℕ) (db : Database F) (run_id : ℕ) (reason : ReviewReasonCode)
      (review : ReviewRequestRow)
      → IsClosed key db
      → IsClosed key (pending_or_new db run_id reason review).0
  unfolding pending_or_new
  pending_or_new-keeps key db run_id reason review c =
      elim (Option-cases (get_pending_review db.reviews run_id reason)) [
        | inl n ↦
            let made : pending_or_new db run_id reason review ≡ (add_review db review, review.id) =
              rw (n, pending_or_new) refl in
            subst (λ (p : Database F × ℕ). IsClosed key p.0) (sym made)
              (add_review-keeps key db review c)
        | inr (old, n) ↦
            let kept : pending_or_new db run_id reason review ≡ (db, old.id) =
              rw (n, pending_or_new) refl in
            subst (λ (p : Database F × ℕ). IsClosed key p.0) (sym kept) c
      ]

module _ {F : Type 0} (float : Float F) (cost_cap : F) (hash : DecisionPayload → String) where
  -- A review that is closed stays as it is: a decision on it is refused, or repeats a grant and
  -- changes nothing.
  resolve_review-closed :
      (db db' : Database F) (run_id id : ℕ) (d : Decision) (now : ℕ) (r : ResolveResult)
      → IsClosed id db
      → resolve_review float cost_cap hash db run_id id d now ≡ ok (db', r)
      → (db' ≡ db) × (r.applied ≡ false)
  resolve_review-closed db db' run_id id d now r (review, found, closed) h =
      elim (resolve_review-cases float cost_cap hash db db' run_id id d now r h) [
        | inl same ↦ (same.unchanged, same.not_applied)
        | inr (other, a, _) ↦ absurd (
            cc (
              a.pending,
              subst (λ q. is_closed q ≡ true) (some-injective (sym found ∙ a.found)) closed,
            ))
      ]

  resolve_review-keeps :
      (key : ℕ) (db db' : Database F) (run_id id : ℕ) (d : Decision) (now : ℕ) (r : ResolveResult)
      → resolve_review float cost_cap hash db run_id id d now ≡ ok (db', r)
      → IsClosed key db
      → IsClosed key db'
  resolve_review-keeps key db db' run_id id d now r h c =
      elim (resolve_review-cases float cost_cap hash db db' run_id id d now r h) [
        | inl same ↦ subst (IsClosed key) (sym same.unchanged) c
        | inr (review, a, e) ↦
            (decide-IsClosed float cost_cap hash db run_id id review d now a.found d.kind e).1 key c
      ]

module _ {F : Type 0} (float : Float F) (cost_cap : F) (hash_payload : Payload → String) where
  lock_run-cases :
      (db : Database F) (run_id : ℕ)
      → ((row : ResearchRunRow F) × (lock_run float cost_cap hash_payload db run_id ≡ ok row))
        ⊎ ((e : CreateError) × (lock_run float cost_cap hash_payload db run_id ≡ err e))
  lock_run-cases db run_id = Result-cases (lock_run float cost_cap hash_payload db run_id)

  ask_input-keeps :
      (key : ℕ) (db db' : Database F) (settings : HitlSettings) (run_id new_id : ℕ)
      (question : String) (made : ℕ)
      → create_human_input_review float cost_cap hash_payload db settings run_id new_id question
        ≡ ok (db', made)
      → IsClosed key db
      → IsClosed key db'
  unfolding create_human_input_review
  ask_input-keeps key db db' settings run_id new_id question made h c =
      elim (Bool-cases
        (requires_review (evaluate_policy ReviewReasonCode.human_input_required settings))) [
          | inr free ↦ absurd (cc (rw (free, create_human_input_review) at h))
          | inl required ↦ elim (lock_run-cases db run_id) [
            | inr (e, l) ↦ absurd (cc (rw (required, l, create_human_input_review) at h))
            | inl (row, l) ↦
                subst (λ (p : Database F × ℕ). IsClosed key p.0)
                  (ok-injective (rw (required, l, create_human_input_review) at h))
                  (pending_or_new-keeps key db run_id ReviewReasonCode.human_input_required _ c)
          ]
        ]

  ask_extension-keeps :
      (key : ℕ) (db db' : Database F) (settings : HitlSettings) (run_id new_id : ℕ) (i t s : ℤ)
      (now made : ℕ)
      → create_budget_extension_review float cost_cap hash_payload db settings run_id new_id i t s
          now
        ≡ ok (db', made)
      → IsClosed key db
      → IsClosed key db'
  unfolding create_budget_extension_review
  ask_extension-keeps key db db' settings run_id new_id i t s now made h c =
      elim (Bool-cases
        (requires_review (evaluate_policy ReviewReasonCode.budget_extension settings))) [
          | inr free ↦ absurd (cc (rw (free, create_budget_extension_review) at h))
          | inl required ↦ elim (lock_run-cases db run_id) [
            | inr (e, l) ↦ absurd (cc (rw (required, l, create_budget_extension_review) at h))
            | inl (row, l) ↦
                elim (Option-cases
                  (get_pending_review db.reviews run_id ReviewReasonCode.budget_extension)) [
                    | inr (old, p) ↦
                        subst (λ (q : Database F × ℕ). IsClosed key q.0)
                          (ok-injective (rw (required, l, p, create_budget_extension_review) at h))
                          c
                    | inl p ↦
                        elim (Bool-cases (
                          is_valid_payload
                            (extension_payload float cost_cap hash_payload row i t s))) [
                              | inr bad ↦ absurd (
                                  cc
                                    (rw (required, l, p, bad, create_budget_extension_review) at h))
                              | inl good ↦
                                  subst (λ (q : Database F × ℕ). IsClosed key q.0)
                                    (ok-injective (
                                      rw (required, l, p, good, create_budget_extension_review) at
                                        h))
                                    (pending_or_new-keeps key db run_id
                                      ReviewReasonCode.budget_extension _ c)
                            ]
                  ]
          ]
        ]

module _ {F : Type 0} (float : Float F) (cost_cap : F) (hash_payload : Payload → String)
    (hash : DecisionPayload → String) where
  -- A call that may write to reviews, or any change elsewhere.
  pub data ReviewCall (db db' : Database F) : Type 0 where
    resolved :
        (run_id id : ℕ) (d : Decision) (now : ℕ) (r : ResolveResult)
        → resolve_review float cost_cap hash db run_id id d now ≡ ok (db', r)
        → ReviewCall db db'
    extension_asked :
        (settings : HitlSettings) (run_id new_id : ℕ) (i t s : ℤ) (now made : ℕ)
        → create_budget_extension_review float cost_cap hash_payload db settings run_id new_id i t s
            now
          ≡ ok (db', made)
        → ReviewCall db db'
    input_asked :
        (settings : HitlSettings) (run_id new_id : ℕ) (question : String) (made : ℕ)
        → create_human_input_review float cost_cap hash_payload db settings run_id new_id question
          ≡ ok (db', made)
        → ReviewCall db db'
    cancelled : (run_id now : ℕ) → cancel_run db run_id now ≡ ok db' → ReviewCall db db'
    elsewhere : db'.reviews ≡ db.reviews → ReviewCall db db'

  pub data ReviewHistory (db : Database F) : Database F → Type 0 where
    start : ReviewHistory db db
    later :
        {mid db' : Database F} → ReviewHistory db mid → ReviewCall mid db' → ReviewHistory db db'

  call-keeps :
      (key : ℕ) {db db' : Database F} → ReviewCall db db' → IsClosed key db → IsClosed key db'
  call-keeps key {db} {db'} (resolved run_id id d now r h) c =
      resolve_review-keeps float cost_cap hash key db db' run_id id d now r h c
  call-keeps key {db} {db'} (extension_asked settings run_id new_id i t s now made h) c =
      ask_extension-keeps float cost_cap hash_payload key db db' settings run_id new_id i t s now
        made h c
  call-keeps key {db} {db'} (input_asked settings run_id new_id question made h) c =
      ask_input-keeps float cost_cap hash_payload key db db' settings run_id new_id question made h
        c
  call-keeps key {db} {db'} (cancelled run_id now h) c = cancel_run-keeps key db db' run_id now h c
  call-keeps key {db} {db'} (elsewhere e) c =
      subst (λ rows. Found review_id is_closed key rows) (sym e) c

  history-keeps :
      (key : ℕ) {db db' : Database F} → ReviewHistory db db' → IsClosed key db → IsClosed key db'
  history-keeps key start c = c
  history-keeps key (later h call) c = call-keeps key call (history-keeps key h c)

  -- Once a decision on a review was applied, no later resolution of that review, of any kind and
  -- whatever calls come in between, changes anything: it is refused, or answers that it was not
  -- applied and leaves the database as it is.
  pub resolve_review-once :
      (db db₁ db₂ db₃ : Database F) (run_id run_id' id : ℕ) (d d' : Decision) (now now' : ℕ)
      (r r' : ResolveResult)
      → resolve_review float cost_cap hash db run_id id d now ≡ ok (db₁, r)
      → r.applied ≡ true
      → ReviewHistory db₁ db₂
      → resolve_review float cost_cap hash db₂ run_id' id d' now' ≡ ok (db₃, r')
      → (db₃ ≡ db₂) × (r'.applied ≡ false)
  resolve_review-once db db₁ db₂ db₃ run_id run_id' id d d' now now' r r' h applied history again =
      elim (resolve_review-cases float cost_cap hash db db₁ run_id id d now r h) [
        | inl idle ↦ absurd (cc (idle.not_applied, applied))
        | inr (review, a, e) ↦
            let closed =
              (decide-IsClosed float cost_cap hash db run_id id review d now a.found d.kind e).0 in
            resolve_review-closed float cost_cap hash db₂ db₃ run_id' id d' now' r'
              (history-keeps id history closed) again
      ]
