-- ===== src/Tasks/Gate/Blocking.antt =====
-- `block_tasks_with_terminal_dependencies` ends, changes only tasks that wait, and leaves none that
-- waits for a dependency that has ended without a result.
use mathlib.Core.List.{append-nil, append_assoc}
use deepscout.Base.{
  ℕ, zero, suc, ◌+◌, ◌<◌, ◌≤◌, ◌≡◌, refl, sym, ap, ◌∙◌, ◌⊎◌, inl, inr, Bool, true, false, Option,
  some, List, [], ◌∷◌, ◌++◌, length, length-append, All, Bool-cases, and-eq-true, arith,
  if◌then◌else◌, subst,
}
use deepscout.Domain.Schemas.{ResearchTaskRead}
use deepscout.Tasks.Graph.{TaskGraph, TaskDict, by_key, is_waiting}
use deepscout.Tasks.Gate.{BlockCall, is_stuck, block, settle, block_call, sweep, sweeps, not_empty}

-- How many tasks wait.
pub waiting : TaskGraph → ℕ
waiting [] = 0
waiting (task ∷ tasks) = (if is_waiting task.status then 1 else 0) + waiting tasks

waiting-append : (xs ys : TaskGraph) → waiting (xs ++ ys) ≡ waiting xs + waiting ys
unfolding waiting
waiting-append [] ys = omega arith
waiting-append (x ∷ xs) ys = omega (arith, waiting-append xs ys)

pub waiting-le-length : (xs : TaskGraph) → waiting xs ≤ length xs
unfolding waiting
waiting-le-length [] = omega arith
waiting-le-length (x ∷ xs) = ground (arith, waiting-le-length xs)

waiting_nil : waiting [] ≡ 0
unfolding waiting
waiting_nil = refl

waiting-settle :
    (d : TaskDict) (task : ResearchTaskRead)
    → waiting (settle d task ∷ []) + (if is_stuck d task then 1 else 0) ≡ waiting (task ∷ [])
unfolding waiting settle is_stuck is_waiting
waiting-settle d task = ground arith

length-calls :
    {A : Type 0} (b : Bool) (c : A) (cs : List A)
    → length (if b then c ∷ cs else cs) ≡ (if b then 1 else 0) + length cs
length-calls b c cs = ground arith

waiting-cons :
    (task : ResearchTaskRead) (rest : TaskGraph)
    → waiting (task ∷ rest) ≡ waiting (task ∷ []) + waiting rest
unfolding waiting
waiting-cons task rest = omega arith

-- Each call takes one task off those that wait.
waiting-sweep :
    (done rest : TaskGraph)
    → waiting (sweep done rest).0 + length (sweep done rest).1 ≡ waiting done + waiting rest
unfolding sweep
waiting-sweep done [] = unfold waiting in omega arith
waiting-sweep done (task ∷ rest) =
    let d = by_key (done ++ task ∷ rest) in
    let next = sweep (done ++ settle d task ∷ []) rest in
    omega (
      arith,
      waiting-sweep (done ++ settle d task ∷ []) rest,
      waiting-append done (settle d task ∷ []),
      waiting-settle d task,
      waiting-cons task rest,
      length-calls (is_stuck d task) (block_call d task) next.1,
    )

-- A pass that makes no call has changed nothing and found no task to block.
sweep-idle :
    (done rest : TaskGraph)
    → (sweep done rest).1 ≡ []
    → ((sweep done rest).0 ≡ done ++ rest)
      × All (λ task. is_stuck (by_key (done ++ rest)) task ≡ false) rest
unfolding sweep
sweep-idle done [] h = (sym (append-nil done), tt)
sweep-idle done (task ∷ rest) h = elim (Bool-cases (is_stuck (by_key (done ++ task ∷ rest)) task)) [
  | inl stuck ↦ absurd (cc (rw stuck at h))
  | inr free ↦
      let (same, all) = sweep-idle (done ++ task ∷ []) rest (rw free at h) in
      rw free (rw append_assoc at same, (refl, rw append_assoc at all))
]

-- One list of tasks after another: each task is as it was, or waited and is blocked.
abbrev pub OnlyBlocks : TaskGraph → TaskGraph → Type 0
OnlyBlocks [] [] = Unit
OnlyBlocks [] (a ∷ rest) = ⊥
OnlyBlocks (b ∷ bs) [] = ⊥
OnlyBlocks (b ∷ bs) (a ∷ rest) =
    ((a ≡ b) ⊎ ((is_waiting b.status ≡ true) × (a ≡ block b))) × OnlyBlocks bs rest

pub OnlyBlocks-refl : (xs : TaskGraph) → OnlyBlocks xs xs
OnlyBlocks-refl [] = tt
OnlyBlocks-refl (x ∷ xs) = (inl refl, OnlyBlocks-refl xs)

pub OnlyBlocks-append :
    (xs xs' ys ys' : TaskGraph)
    → OnlyBlocks xs xs'
    → OnlyBlocks ys ys'
    → OnlyBlocks (xs ++ ys) (xs' ++ ys')
OnlyBlocks-append [] [] ys ys' p q = q
OnlyBlocks-append [] (x' ∷ xs') ys ys' p q = absurd p
OnlyBlocks-append (x ∷ xs) [] ys ys' p q = absurd p
OnlyBlocks-append (x ∷ xs) (x' ∷ xs') ys ys' p q = (p.0, OnlyBlocks-append xs xs' ys ys' p.1 q)

-- A blocked task waits no more.
block_twice :
    (a b c : ResearchTaskRead)
    → (b ≡ a) ⊎ ((is_waiting a.status ≡ true) × (b ≡ block a))
    → (c ≡ b) ⊎ ((is_waiting b.status ≡ true) × (c ≡ block b))
    → (c ≡ a) ⊎ ((is_waiting a.status ≡ true) × (c ≡ block a))
unfolding is_waiting
block_twice a b c (inl e) (inl f) = inl (f ∙ e)
block_twice a b c (inl e) (inr (w, f)) =
    inr (subst (λ t. is_waiting t.status ≡ true) e w, f ∙ ap block e)
block_twice a b c (inr (w, e)) (inl f) = inr (w, f ∙ e)
block_twice a b c (inr (w, e)) (inr (v, f)) =
    absurd (cc (subst (λ t. is_waiting t.status ≡ true) e v))

pub OnlyBlocks-trans :
    (xs ys zs : TaskGraph) → OnlyBlocks xs ys → OnlyBlocks ys zs → OnlyBlocks xs zs
OnlyBlocks-trans [] [] zs p q = q
OnlyBlocks-trans [] (y ∷ ys) zs p q = absurd p
OnlyBlocks-trans (x ∷ xs) [] zs p q = absurd p
OnlyBlocks-trans (x ∷ xs) (y ∷ ys) [] p q = absurd q
OnlyBlocks-trans (x ∷ xs) (y ∷ ys) (z ∷ zs) p q =
    (block_twice x y z p.0 q.0, OnlyBlocks-trans xs ys zs p.1 q.1)

pub settle-OnlyBlocks :
    (d : TaskDict) (task : ResearchTaskRead) → OnlyBlocks (task ∷ []) (settle d task ∷ [])
unfolding settle is_stuck
settle-OnlyBlocks d task = elim (Bool-cases (is_stuck d task)) [
  | inl stuck ↦ rw (stuck, settle) (inr ((and-eq-true stuck).0, refl), tt)
  | inr free ↦ rw (free, settle) (inl refl, tt)
]

pub sweep-OnlyBlocks :
    (orig done rest : TaskGraph)
    → OnlyBlocks orig done
    → OnlyBlocks (orig ++ rest) (sweep done rest).0
unfolding sweep
sweep-OnlyBlocks orig done [] p = rw append-nil p
sweep-OnlyBlocks orig done (task ∷ rest) p =
    let d = by_key (done ++ task ∷ rest) in
    rw append_assoc at (
      sweep-OnlyBlocks (orig ++ task ∷ []) (done ++ settle d task ∷ []) rest
        (OnlyBlocks-append orig done (task ∷ []) (settle d task ∷ []) p (settle-OnlyBlocks d task)))

-- No task that waits has a dependency that ended without a result.
abbrev pub IsSettled : TaskGraph → Type 0
IsSettled tasks = All (λ task. is_stuck (by_key tasks) task ≡ false) tasks

-- What the loop reaches from these tasks and calls.
pub record Settles (tasks : TaskGraph) (calls : List BlockCall)
    (r : Option (TaskGraph × List BlockCall)) : Type 0 where
  pub after : TaskGraph
  pub made : List BlockCall
  pub returns : r ≡ some (after, made)
  pub settled : IsSettled after
  pub only_blocks : OnlyBlocks tasks after
  pub counted : waiting after + length made ≡ waiting tasks + length calls

pub nil_of_not_not_empty : {A : Type 0} (xs : List A) → not_empty xs ≡ false → xs ≡ []
nil_of_not_not_empty [] h = refl
nil_of_not_not_empty (x ∷ xs) h = cc

pub pos_of_not_empty : {A : Type 0} (xs : List A) → not_empty xs ≡ true → 0 < length xs
pos_of_not_empty [] h = cc
pos_of_not_empty (x ∷ xs) h = omega arith

pub sweeps-Settles :
    (fuel : ℕ) (tasks : TaskGraph) (calls : List BlockCall)
    → waiting tasks < fuel
    → Settles tasks calls (sweeps fuel tasks calls)
unfolding sweeps
sweeps-Settles zero tasks calls h = absurd (omega arith)
sweeps-Settles (suc fuel) tasks calls h =
    let (after, new) = sweep [] tasks in
    elim (Bool-cases (not_empty new)) [
      | inl more ↦
          let s =
            sweeps-Settles fuel after (calls ++ new)
              (omega (arith, waiting-sweep [] tasks, pos_of_not_empty new more, waiting_nil)) in
          rw more (record {
            after = s.after;
            made = s.made;
            returns = s.returns;
            settled = s.settled;
            only_blocks =
                OnlyBlocks-trans tasks after s.after (sweep-OnlyBlocks [] [] tasks tt)
                  s.only_blocks;
            counted =
                omega
                  (arith, s.counted, waiting-sweep [] tasks, length-append calls new, waiting_nil);
          })
      | inr none_new ↦
          let idle = sweep-idle [] tasks (nil_of_not_not_empty new none_new) in
          rw none_new (record {
            after = after;
            made = calls;
            returns = refl;
            settled = subst IsSettled (sym idle.0) idle.1;
            only_blocks = sweep-OnlyBlocks [] [] tasks tt;
            counted = rw idle.0 refl;
          })
    ]
