-- ===== src/Tasks/Gate/Calls.antt =====
-- The calls of `block_tasks_with_terminal_dependencies` on the store: one for each task that it
-- blocks, under the task's key and with the names of dependencies that ended without a result.
use mathlib.Core.List.{foldl, append_assoc}
use Prim.Native.String.{◌++◌ as str_append}
use deepscout.Base.{
  ℕ, zero, suc, ◌+◌, ◌<◌, String, ◌≡◌, refl, sym, ◌∙◌, ◌⊎◌, inl, inr, Bool, true, false, ◌&&◌, some,
  List, [], ◌∷◌, ◌++◌, length, All, All-weaken, Exists, Bool-cases, Option-cases, and-eq-true,
  arith, if◌then◌else◌, subst, select, ◌==◌, lookup, str_eq, some-injective, lookup-insert,
}
use deepscout.Domain.Enums.{ResearchTaskStatus}
use deepscout.Domain.Schemas.{ResearchTaskRead}
use deepscout.Tasks.Graph.{TaskGraph, TaskDict, add_task, by_key, is_waiting}
use deepscout.Tasks.Gate.{
  BlockCall, is_unsatisfied, is_dead_end, terminal_deps, join_keys, is_stuck, block, settle,
  block_call, sweep, sweeps, not_empty, block_tasks_with_terminal_dependencies,
}
use deepscout.Tasks.Gate.Blocking.{
  OnlyBlocks, OnlyBlocks-refl, OnlyBlocks-append, OnlyBlocks-trans, settle-OnlyBlocks,
  sweep-OnlyBlocks, IsSettled, sweeps-Settles, waiting-le-length, nil_of_not_not_empty,
  pos_of_not_empty,
}

-- How many tasks with this key wait.
pub waiting_at : ℕ → TaskGraph → ℕ
waiting_at id [] = 0
waiting_at id (task ∷ tasks) =
    (if is_waiting task.status && task.id == id then 1 else 0) + waiting_at id tasks

-- How many calls there are for the task with this key.
pub calls_at : ℕ → List BlockCall → ℕ
calls_at id [] = 0
calls_at id (call ∷ calls) = (if call.task_id == id then 1 else 0) + calls_at id calls

waiting_at-append :
    (id : ℕ) (xs ys : TaskGraph) → waiting_at id (xs ++ ys) ≡ waiting_at id xs + waiting_at id ys
unfolding waiting_at
waiting_at-append id [] ys = omega arith
waiting_at-append id (x ∷ xs) ys = omega (arith, waiting_at-append id xs ys)

calls_at-append :
    (id : ℕ) (xs ys : List BlockCall) → calls_at id (xs ++ ys) ≡ calls_at id xs + calls_at id ys
unfolding calls_at
calls_at-append id [] ys = omega arith
calls_at-append id (x ∷ xs) ys = omega (arith, calls_at-append id xs ys)

waiting_at_nil : (id : ℕ) → waiting_at id [] ≡ 0
unfolding waiting_at
waiting_at_nil id = refl

calls_at_nil : (id : ℕ) → calls_at id [] ≡ 0
unfolding calls_at
calls_at_nil id = refl

-- One task's turn: it waits no more exactly where there is a call for it.
turn :
    (id : ℕ) (d : TaskDict) (task : ResearchTaskRead) (rest : TaskGraph) (calls : List BlockCall)
    → waiting_at id (settle d task ∷ [])
        + calls_at id (if is_stuck d task then block_call d task ∷ calls else calls)
        + waiting_at id rest
      ≡ waiting_at id (task ∷ rest) + calls_at id calls
unfolding waiting_at calls_at settle is_stuck is_waiting block_call
turn id d task rest calls = ground arith

sweep-counts :
    (id : ℕ) (done rest : TaskGraph)
    → waiting_at id (sweep done rest).0 + calls_at id (sweep done rest).1
      ≡ waiting_at id done + waiting_at id rest
unfolding sweep
sweep-counts id done [] = unfold waiting_at calls_at in omega arith
sweep-counts id done (task ∷ rest) =
    let d = by_key (done ++ task ∷ rest) in
    let next = sweep (done ++ settle d task ∷ []) rest in
    omega (
      arith,
      sweep-counts id (done ++ settle d task ∷ []) rest,
      waiting_at-append id done (settle d task ∷ []),
      turn id d task rest next.1,
    )

sweeps-counts :
    (id fuel : ℕ) (tasks : TaskGraph) (calls : List BlockCall) (after : TaskGraph)
    (made : List BlockCall)
    → sweeps fuel tasks calls ≡ some (after, made)
    → waiting_at id after + calls_at id made ≡ waiting_at id tasks + calls_at id calls
unfolding sweeps
sweeps-counts id zero tasks calls after made h = absurd (cc)
sweeps-counts id (suc fuel) tasks calls after made h =
    let (mid, new) = sweep [] tasks in
    elim (Bool-cases (not_empty new)) [
      | inl more ↦
          let rest = sweeps-counts id fuel mid (calls ++ new) after made (rw more at h) in
          omega
            (arith, rest, sweep-counts id [] tasks, calls_at-append id calls new, waiting_at_nil id)
      | inr idle ↦
          let none_new = nil_of_not_not_empty new idle in
          let e = some-injective (rw idle at h) in
          let counts =
            subst
              (λ (c : List BlockCall).
                waiting_at id mid + calls_at id c ≡ waiting_at id [] + waiting_at id tasks)
              none_new (sweep-counts id [] tasks) in
          subst
            (λ (p : TaskGraph × List BlockCall).
              waiting_at id p.0 + calls_at id p.1 ≡ waiting_at id tasks + calls_at id calls)
            e (omega (arith, counts, waiting_at_nil id, calls_at_nil id))
    ]

-- Every key whose task ended without a result has that very task in the second dictionary too.
KeepsEnded : TaskDict → TaskDict → Type 0
KeepsEnded d d' =
    (key : String) (task : ResearchTaskRead)
    → lookup key d ≡ some task
    → is_unsatisfied task.status ≡ true
    → lookup key d' ≡ some task

waiting-not_ended :
    (status : ResearchTaskStatus) → is_waiting status ≡ true → is_unsatisfied status ≡ true → ⊥
unfolding is_waiting is_unsatisfied
waiting-not_ended status w u = ground arith

add_task-KeepsEnded :
    (d d' : TaskDict) (b a : ResearchTaskRead)
    → (a ≡ b) ⊎ ((is_waiting b.status ≡ true) × (a ≡ block b))
    → KeepsEnded d d'
    → KeepsEnded (add_task d b) (add_task d' a)
unfolding add_task KeepsEnded
add_task-KeepsEnded d d' b a (inl e) keeps key task found ended = rw e (
    rw lookup-insert (elim (Bool-cases (str_eq b.task_key key)) [
      | inl same ↦ rw same (rw (lookup-insert, same) at found)
      | inr other ↦ rw other (keeps key task (rw (lookup-insert, other) at found) ended)
    ]))
add_task-KeepsEnded d d' b a (inr (w, e)) keeps key task found ended = rw e (
    rw lookup-insert (elim (Bool-cases (str_eq b.task_key key)) [
      | inl same ↦
          let q : b ≡ task = some-injective (rw (lookup-insert, same) at found) in
          absurd (
            waiting-not_ended task.status
              (subst (λ (t : ResearchTaskRead). is_waiting t.status ≡ true) q w) ended)
      | inr other ↦ rw other (keeps key task (rw (lookup-insert, other) at found) ended)
    ]))

foldl-KeepsEnded :
    (d d' : TaskDict) (xs ys : TaskGraph)
    → OnlyBlocks xs ys
    → KeepsEnded d d'
    → KeepsEnded (foldl add_task d xs) (foldl add_task d' ys)
foldl-KeepsEnded d d' [] [] p keeps = keeps
foldl-KeepsEnded d d' [] (y ∷ ys) p keeps = absurd p
foldl-KeepsEnded d d' (x ∷ xs) [] p keeps = absurd p
foldl-KeepsEnded d d' (x ∷ xs) (y ∷ ys) p keeps =
    foldl-KeepsEnded (add_task d x) (add_task d' y) xs ys p.1
      (add_task-KeepsEnded d d' x y p.0 keeps)

by_key-KeepsEnded : (xs ys : TaskGraph) → OnlyBlocks xs ys → KeepsEnded (by_key xs) (by_key ys)
unfolding by_key KeepsEnded
by_key-KeepsEnded xs ys p = foldl-KeepsEnded [] [] xs ys p (λ key task found ended. found)

-- The key is a dependency of the task, and its task has ended without a result.
abbrev pub IsDead : TaskGraph → ResearchTaskRead → String → Type 0
IsDead tasks task key =
    Exists (λ dep. dep ≡ key) task.depends_on
    × ((ended : ResearchTaskRead) × (lookup key (by_key tasks) ≡ some ended)
        × (is_unsatisfied ended.status ≡ true))

-- The call is for this task, and its message names one or more of its dependencies, all of which
-- have ended without a result as the tasks stand.
pub record Names (tasks : TaskGraph) (call : BlockCall) (task : ResearchTaskRead) : Type 0 where
  pub waits : is_waiting task.status ≡ true
  pub for_task : call.task_id ≡ task.id
  pub named : List String
  pub message : call.error_message ≡ str_append "blocked_by_dependency:" (join_keys named)
  pub some_named : 0 < length named
  pub all_dead : All (IsDead tasks task) named

-- The call is for one of the first tasks.
abbrev pub IsExplained : (first tasks : TaskGraph) → BlockCall → Type 0
IsExplained first tasks call = Exists (Names tasks call) first

Names-later :
    (xs ys : TaskGraph) (call : BlockCall) (task : ResearchTaskRead)
    → OnlyBlocks xs ys
    → Names xs call task
    → Names ys call task
Names-later xs ys call task p n = record {
  waits = n.waits;
  for_task = n.for_task;
  named = n.named;
  message = n.message;
  some_named = n.some_named;
  all_dead =
      All-weaken n.named
        (λ key c.
          let (dep, (t, found, ended)) = c in
          (dep, (t, unfold KeepsEnded in by_key-KeepsEnded xs ys p key t found ended, ended)))
        n.all_dead;
}

Exists-weaken :
    {A : Type 0} {P Q : A → Type 0} (xs : List A)
    → ((a : A) → P a → Q a)
    → Exists P xs
    → Exists Q xs
Exists-weaken [] f h = h
Exists-weaken (x ∷ xs) f (inl p) = inl (f x p)
Exists-weaken (x ∷ xs) f (inr p) = inr (Exists-weaken xs f p)

Explained-later :
    (first xs ys : TaskGraph) (calls : List BlockCall)
    → OnlyBlocks xs ys
    → All (IsExplained first xs) calls
    → All (IsExplained first ys) calls
Explained-later first xs ys calls p all =
    All-weaken calls (λ call h. Exists-weaken first (λ task n. Names-later xs ys call task p n) h)
      all

terminal-IsDead :
    (tasks : TaskGraph) (keys : List String) (task : ResearchTaskRead)
    → ((key : String) → Exists (λ dep. dep ≡ key) keys → Exists (λ dep. dep ≡ key) task.depends_on)
    → All (IsDead tasks task) (select (is_dead_end (by_key tasks)) keys)
unfolding is_dead_end
terminal-IsDead tasks [] task among = tt
terminal-IsDead tasks (key ∷ keys) task among =
    let rest = terminal-IsDead tasks keys task (λ k h. among k (inr h)) in
    elim (Option-cases (lookup key (by_key tasks))) [
      | inl n ↦ rw (n, is_dead_end) rest
      | inr (ended, found) ↦ elim (Bool-cases (is_unsatisfied ended.status)) [
        | inr e ↦ rw (found, e, is_dead_end) rest
        | inl e ↦ rw (found, e, is_dead_end) ((among key (inl refl), (ended, found, e)), rest)
      ]
    ]

block_call-Names :
    (tasks : TaskGraph) (task : ResearchTaskRead)
    → is_stuck (by_key tasks) task ≡ true
    → Names tasks (block_call (by_key tasks) task) task
unfolding is_stuck block_call terminal_deps
block_call-Names tasks task stuck =
    let (waits, some_dead) = and-eq-true stuck in
    record {
      waits = waits;
      for_task = refl;
      named = terminal_deps (by_key tasks) task;
      message = refl;
      some_named = pos_of_not_empty (terminal_deps (by_key tasks) task) some_dead;
      all_dead = terminal-IsDead tasks task.depends_on task (λ key h. h);
    }

-- A task that still waits is as it was at first.
waits-at_first :
    (first tasks : TaskGraph) (task : ResearchTaskRead)
    → OnlyBlocks first tasks
    → is_waiting task.status ≡ true
    → Exists (λ t. t ≡ task) tasks
    → Exists (λ t. t ≡ task) first
unfolding is_waiting
waits-at_first [] [] task p w h = h
waits-at_first [] (y ∷ ys) task p w h = absurd p
waits-at_first (x ∷ xs) [] task p w h = absurd h
waits-at_first (x ∷ xs) (y ∷ ys) task p w (inr h) = inr (waits-at_first xs ys task p.1 w h)
waits-at_first (x ∷ xs) (y ∷ ys) task p w (inl e) = elim p.0 [
  | inl same ↦ inl (sym same ∙ e)
  | inr (_, blocked) ↦
      absurd (cc (subst (λ (t : ResearchTaskRead). is_waiting t.status ≡ true) (sym e ∙ blocked) w))
]

Exists-middle :
    {A : Type 0} (xs : List A) (a : A) (ys : List A) → Exists (λ t. t ≡ a) (xs ++ a ∷ ys)
Exists-middle [] a ys = inl refl
Exists-middle (x ∷ xs) a ys = inr (Exists-middle xs a ys)

Exists-subst :
    {A : Type 0} (P : A → Type 0) (a : A) (xs : List A) → P a → Exists (λ t. t ≡ a) xs → Exists P xs
Exists-subst P a xs p h = Exists-weaken xs (λ t e. subst P (sym e) p) h

turn-OnlyBlocks :
    (first done : TaskGraph) (task : ResearchTaskRead) (rest : TaskGraph)
    → OnlyBlocks first (done ++ task ∷ rest)
    → OnlyBlocks first ((done ++ settle (by_key (done ++ task ∷ rest)) task ∷ []) ++ rest)
turn-OnlyBlocks first done task rest p =
    let d = by_key (done ++ task ∷ rest) in
    rw append_assoc (
      OnlyBlocks-trans first (done ++ task ∷ rest) (done ++ settle d task ∷ rest) p (
        OnlyBlocks-append done done (task ∷ rest) (settle d task ∷ rest) (OnlyBlocks-refl done) (
          OnlyBlocks-append (task ∷ []) (settle d task ∷ []) rest rest (settle-OnlyBlocks d task)
            (OnlyBlocks-refl rest))))

All-if :
    {A : Type 0} (P : A → Type 0) (b : Bool) (c : A) (cs : List A)
    → (b ≡ true → P c)
    → All P cs
    → All P (if b then c ∷ cs else cs)
All-if P true c cs p all = (p refl, all)
All-if P false c cs p all = all

sweep-Explained :
    (first done rest : TaskGraph)
    → OnlyBlocks first (done ++ rest)
    → All (IsExplained first (sweep done rest).0) (sweep done rest).1
unfolding sweep
sweep-Explained first done [] p = tt
sweep-Explained first done (task ∷ rest) p =
    let all = done ++ task ∷ rest in
    let d = by_key all in
    let later =
      sweep-Explained first (done ++ settle d task ∷ []) rest
        (turn-OnlyBlocks first done task rest p) in
    let after = (sweep (done ++ settle d task ∷ []) rest).0 in
    All-if (IsExplained first after) (is_stuck d task) (block_call d task) _
      (λ stuck.
        let names = block_call-Names all task stuck in
        let end : OnlyBlocks all after =
          sweep-OnlyBlocks done done (task ∷ rest) (OnlyBlocks-refl done) in
        Exists-subst (Names after (block_call d task)) task first
          (Names-later all after (block_call d task) task end names)
          (waits-at_first first all task p names.waits (Exists-middle done task rest)))
      later

All-append : {A : Type 0} (P : A → Type 0) (xs ys : List A) → All P xs → All P ys → All P (xs ++ ys)
All-append P [] ys p q = q
All-append P (x ∷ xs) ys p q = (p.0, All-append P xs ys p.1 q)

sweeps-Explained :
    (first : TaskGraph) (fuel : ℕ) (tasks : TaskGraph) (calls : List BlockCall) (after : TaskGraph)
    (made : List BlockCall)
    → sweeps fuel tasks calls ≡ some (after, made)
    → OnlyBlocks first tasks
    → All (IsExplained first tasks) calls
    → All (IsExplained first after) made
unfolding sweeps
sweeps-Explained first zero tasks calls after made h p all = absurd (cc)
sweeps-Explained first (suc fuel) tasks calls after made h p all =
    let (mid, new) = sweep [] tasks in
    let end : OnlyBlocks tasks mid = sweep-OnlyBlocks [] [] tasks tt in
    let old = Explained-later first tasks mid calls end all in
    elim (Bool-cases (not_empty new)) [
      | inl more ↦
          sweeps-Explained first fuel mid (calls ++ new) after made (rw more at h)
            (OnlyBlocks-trans first tasks mid p end)
            (All-append (IsExplained first mid) calls new old (sweep-Explained first [] tasks p))
      | inr idle ↦
          subst (λ (q : TaskGraph × List BlockCall). All (IsExplained first q.0) q.1)
            (some-injective (rw idle at h)) old
    ]

-- The loop ends. Afterwards no waiting task has a dependency that ended without a result, and each
-- task is as it was, or waited and is now blocked. For each key, the calls on the store with that key
-- are as many as the tasks with that key that waited and do so no more. Each call has the key of a
-- task that waited and a message that names one or more of its dependencies, all of which have ended
-- without a result.
pub block_tasks-Settles :
    (tasks : TaskGraph)
    → (after : TaskGraph) × (made : List BlockCall) × (block_tasks_with_terminal_dependencies tasks
        ≡ some (after, made))
      × IsSettled after
      × OnlyBlocks tasks after
      × ((id : ℕ) → waiting_at id after + calls_at id made ≡ waiting_at id tasks)
      × All (IsExplained tasks after) made
unfolding block_tasks_with_terminal_dependencies
block_tasks-Settles tasks =
    let fuel = suc (length tasks) in
    let s = sweeps-Settles fuel tasks [] (omega (arith, waiting-le-length tasks)) in
    (
      s.after,
      s.made,
      s.returns,
      s.settled,
      s.only_blocks,
      (λ id.
          omega (arith, sweeps-counts id fuel tasks [] s.after s.made s.returns, calls_at_nil id)),
      sweeps-Explained tasks fuel tasks [] s.after s.made s.returns (OnlyBlocks-refl tasks) tt,
    )
