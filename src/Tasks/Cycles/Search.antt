-- ===== src/Tasks/Cycles/Search.antt =====
-- The depth-first search of `_detect_cycles`: it ends, and it answers with an order of the keys or
-- with a task that depends on itself.
use deepscout.Base.{
  ℕ, zero, suc, ◌<◌, String, ◌≡◌, refl, sym, ◌∙◌, inl, inr, true, false, some, List, [], ◌∷◌,
  Result, ok, err, ◌>>=◌, contains, discard, lookup, keys_of, fresh_count, Included,
  contains-cons_cases, contains-cons_of, contains-cons_self, not-contains-nil, discard-cons_self,
  fresh_count-cons_lt, lookup_of_contains, Bool-cases, arith, subst,
}
use deepscout.Domain.Schemas.{ResearchTaskRead}
use deepscout.Tasks.Graph.{
  TaskDict, GraphError, unknown_dependency, self_dependency, cycle_detected, key_error, out_of_fuel,
  Marks, visit_all, visit,
}
use deepscout.Tasks.Cycles.Relation.{DependsOn, Leads, one, Leads-snoc, IsOrder}

module _ (d : TaskDict) where
  -- Every dependency of a task of the dictionary is one of its keys.
  abbrev pub IsKnown : Type 0
  IsKnown =
      (k : String) (task : ResearchTaskRead)
      → lookup k d ≡ some task
      → Included task.depends_on (keys_of d)

  -- What a search for these keys has done when it returns.
  pub record Done (keys : List String) (before after : Marks) : Type 0 where
    pub order : IsOrder d after.visited
    pub grows : Included before.visited after.visited
    pub all : Included keys after.visited
    pub same : after.visiting ≡ before.visiting

  -- A search returns an order, or finds a task that depends on itself. It raises nothing else.
  abbrev pub Fine : List String → Marks → Result GraphError Marks → Type 0
  Fine keys before (ok after) = Done keys before after
  Fine keys before (err (cycle_detected k)) = Leads d k k
  Fine keys before (err _) = ⊥

  -- Every key on the way leads to this one.
  abbrev pub IsStack : List String → String → Type 0
  IsStack stack key = (k : String) → contains stack k ≡ true → Leads d k key

  -- What a search of one key needs.
  pub record Ready (fuel : ℕ) (key : String) (marks : Marks) : Type 0 where
    pub member : contains (keys_of d) key ≡ true
    pub order : IsOrder d marks.visited
    pub stack : IsStack marks.visiting key
    pub enough : fresh_count marks.visiting (keys_of d) < fuel

  Done-nil : (marks : Marks) → IsOrder d marks.visited → Done [] marks marks
  Done-nil marks o = record {
    order = o;
    grows = λ k m. m;
    all = λ k m. absurd (not-contains-nil k m);
    same = refl;
  }

  Done-cons :
      (key : String) (keys : List String) (before mid after : Marks)
      → Done (key ∷ []) before mid
      → Done keys mid after
      → Done (key ∷ keys) before after
  Done-cons key keys before mid after p q = record {
    order = q.order;
    grows = λ k m. q.grows k (p.grows k m);
    all = λ k m. elim (contains-cons_cases key k keys m) [
      | inl e ↦
          q.grows k
            (p.all k (subst (λ x. contains (key ∷ []) x ≡ true) e (contains-cons_self key [])))
      | inr m' ↦ q.all k m'
    ];
    same = q.same ∙ p.same;
  }

  Fine-cons :
      (key : String) (keys : List String) (before mid : Marks) (r : Result GraphError Marks)
      → Done (key ∷ []) before mid
      → Fine keys mid r
      → Fine (key ∷ keys) before r
  Fine-cons key keys before mid (ok after) p q = Done-cons key keys before mid after p q
  Fine-cons key keys before mid (err (cycle_detected k)) p q = q
  Fine-cons key keys before mid (err (unknown_dependency a b)) p q = q
  Fine-cons key keys before mid (err (self_dependency k)) p q = q
  Fine-cons key keys before mid (err (key_error k)) p q = q
  Fine-cons key keys before mid (err out_of_fuel) p q = q

  Fine-bind :
      (key : String) (keys : List String) (before : Marks) (r : Result GraphError Marks)
      (rest : Marks → Result GraphError Marks)
      → Fine (key ∷ []) before r
      → ((mid : Marks) → Done (key ∷ []) before mid → Fine keys mid (rest mid))
      → Fine (key ∷ keys) before (r >>= rest)
  Fine-bind key keys before (ok mid) rest p q = Fine-cons key keys before mid (rest mid) p (q mid p)
  Fine-bind key keys before (err (cycle_detected k)) rest p q = p
  Fine-bind key keys before (err (unknown_dependency a b)) rest p q = p
  Fine-bind key keys before (err (self_dependency k)) rest p q = p
  Fine-bind key keys before (err (key_error k)) rest p q = p
  Fine-bind key keys before (err out_of_fuel) rest p q = p

  -- A search leaves what later searches need.
  Ready-after :
      (fuel : ℕ) (key : String) {keys : List String} {before after : Marks}
      → Done keys before after
      → Ready fuel key before
      → Ready fuel key after
  Ready-after fuel key p r = record {
    member = r.member;
    order = p.order;
    stack = λ j n. r.stack j (subst (λ (v : List String). contains v j ≡ true) p.same n);
    enough = subst (λ (v : List String). fresh_count v (keys_of d) < fuel) (sym p.same) r.enough;
  }

  -- The rule for `for key in keys: go(key)`.
  pub visit_all-Fine :
      (go : String → Marks → Result GraphError Marks) (fuel : ℕ)
      → ((key : String) (marks : Marks)
          → Ready fuel key marks
          → Fine (key ∷ []) marks (go key marks))
      → (keys : List String) (marks : Marks)
      → ((key : String) → contains keys key ≡ true → Ready fuel key marks)
      → IsOrder d marks.visited
      → Fine keys marks (visit_all go keys marks)
  unfolding visit_all
  visit_all-Fine go fuel each [] marks ready o = Done-nil marks o
  visit_all-Fine go fuel each (key ∷ keys) marks ready o =
      Fine-bind key keys marks (go key marks) (visit_all go keys)
        (each key marks (ready key (contains-cons_self key keys)))
        (λ mid p.
          visit_all-Fine go fuel each keys mid
            (λ k m. Ready-after fuel k p (ready k (contains-cons_of key k keys m))) p.order)

  -- What the dependencies of a task need once the task is entered.
  Ready-enter :
      IsKnown
      → (fuel : ℕ) (key : String) (marks : Marks) (task : ResearchTaskRead)
      → Ready (suc fuel) key marks
      → lookup key d ≡ some task
      → contains marks.visiting key ≡ false
      → (dep : String) → contains task.depends_on dep ≡ true
      → Ready fuel dep (record marks { visiting = key ∷ marks.visiting })
  Ready-enter known fuel key marks task r found new dep m =
      let step : DependsOn d key dep = record { task = task; found = found; listed = m } in
      record {
        member = known key task found dep m;
        order = r.order;
        stack = λ k n. elim (contains-cons_cases key k marks.visiting n) [
          | inl e ↦ one (subst (λ x. DependsOn d x dep) e step)
          | inr n' ↦ Leads-snoc d (r.stack k n') step
        ];
        enough =
            omega
              (arith, fresh_count-cons_lt marks.visiting key (keys_of d) r.member new, r.enough);
      }

  -- Leaving a task puts it at the head of the order.
  Fine-leave :
      (key : String) (marks : Marks) (task : ResearchTaskRead) (r : Result GraphError Marks)
      → lookup key d ≡ some task
      → Fine task.depends_on (record marks { visiting = key ∷ marks.visiting }) r
      → Fine (key ∷ []) marks (
          r >>= λ after.
          ok (record { visiting = discard key after.visiting; visited = key ∷ after.visited }))
  Fine-leave key marks task (ok after) found p = record {
    order = ((task, found, p.all), p.order);
    grows = λ k m. contains-cons_of key k after.visited (p.grows k m);
    all = λ k m. elim (contains-cons_cases key k [] m) [
      | inl e ↦
          subst (λ x. contains (key ∷ after.visited) x ≡ true) e
            (contains-cons_self key after.visited)
      | inr m' ↦ absurd (not-contains-nil k m')
    ];
    same = rw p.same (discard-cons_self key marks.visiting);
  }
  Fine-leave key marks task (err (cycle_detected k)) found p = p
  Fine-leave key marks task (err (unknown_dependency a b)) found p = p
  Fine-leave key marks task (err (self_dependency k)) found p = p
  Fine-leave key marks task (err (key_error k)) found p = p
  Fine-leave key marks task (err out_of_fuel) found p = p

  -- `visit`, with fuel for the keys that are not being visited.
  pub visit-Fine :
      IsKnown
      → (fuel : ℕ) (key : String) (marks : Marks) → Ready fuel key marks
      → Fine (key ∷ []) marks (visit d fuel key marks)
  unfolding visit
  visit-Fine known zero key marks r = absurd (omega (arith, r.enough))
  visit-Fine known (suc fuel) key marks r = elim (Bool-cases (contains marks.visiting key)) [
    | inl twice ↦ rw (twice, visit) (r.stack key twice)
    | inr new ↦ elim (Bool-cases (contains marks.visited key)) [
      | inl done ↦
          rw (new, done, visit)
            (record {
              order = r.order;
              grows = λ k m. m;
              all = λ k m. elim (contains-cons_cases key k [] m) [
                | inl e ↦ subst (λ x. contains marks.visited x ≡ true) e done
                | inr m' ↦ absurd (not-contains-nil k m')
              ];
              same = refl;
            })
      | inr fresh ↦
          let (task, found) = lookup_of_contains key d r.member in
          rw (new, fresh, found, visit)
            (Fine-leave key marks task _ found (
              visit_all-Fine (visit d fuel) fuel (visit-Fine known fuel) task.depends_on
                (record marks { visiting = key ∷ marks.visiting })
                (Ready-enter known fuel key marks task r found new) r.order))
    ]
  ]
