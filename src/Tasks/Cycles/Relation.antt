-- ===== src/Tasks/Cycles/Relation.antt =====
-- The dependency relation of a dictionary of tasks, and the topological orders that refute cycles.
use deepscout.Base.{
  String, ◌≡◌, inl, inr, true, some, List, [], ◌∷◌, contains, lookup, Included, contains-cons_cases,
  contains-cons_of, not-contains-nil, subst, ap,
}
use deepscout.Domain.Schemas.{ResearchTaskRead}
use deepscout.Tasks.Graph.{TaskDict}

module _ (d : TaskDict) where
  -- The task at the first key lists the second.
  pub record DependsOn (k j : String) : Type 0 where
    pub task : ResearchTaskRead
    pub found : lookup k d ≡ some task
    pub listed : contains task.depends_on j ≡ true

  -- A path of one or more dependencies.
  pub data Leads : String → String → Type 0 where
    one : {k j : String} → DependsOn k j → Leads k j
    more : {k j i : String} → DependsOn k j → Leads j i → Leads k i

  pub Leads-snoc : {k j i : String} → Leads k j → DependsOn j i → Leads k i
  Leads-snoc (one s) t = more s (one t)
  Leads-snoc (more s p) t = more s (Leads-snoc p t)

  -- No task depends on itself through others.
  abbrev pub IsAcyclic : Type 0
  IsAcyclic = (k : String) → ¬ Leads k k

  -- Newest first: every dependency of a key stands behind it.
  abbrev pub IsOrder : List String → Type 0
  IsOrder [] = Unit
  IsOrder (k ∷ rest) =
      ((task : ResearchTaskRead) × (lookup k d ≡ some task) × Included task.depends_on rest)
      × IsOrder rest

  -- A first step from the newest key of an order goes behind it.
  step_behind :
      (x : String) (rest : List String) {k j : String}
      → IsOrder (x ∷ rest)
      → x ≡ k
      → DependsOn k j
      → contains rest j ≡ true
  step_behind x rest {k = k} {j = j} o e s =
      let (task, found, deps) = o.0 in
      deps j (
        subst (λ (t : ResearchTaskRead). contains t.depends_on j ≡ true) {x = s.task} {y = task}
          (cc (found, s.found, ap (λ y. lookup y d) e)) s.listed)

  DependsOn-behind :
      (l : List String) {k j : String}
      → IsOrder l
      → contains l k ≡ true
      → DependsOn k j
      → contains l j ≡ true
  DependsOn-behind [] o m s = absurd (not-contains-nil _ m)
  DependsOn-behind (x ∷ rest) {k = k} {j = j} o m s = elim (contains-cons_cases x k rest m) [
    | inl e ↦ contains-cons_of x j rest (step_behind x rest o e s)
    | inr m' ↦ contains-cons_of x j rest (DependsOn-behind rest o.1 m' s)
  ]

  Leads-behind :
      (l : List String) {k j : String}
      → IsOrder l
      → contains l k ≡ true
      → Leads k j
      → contains l j ≡ true
  Leads-behind l o m (one s) = DependsOn-behind l o m s
  Leads-behind l o m (more s p) = Leads-behind l o (DependsOn-behind l o m s) p

  -- No key of an order leads to itself.
  pub IsOrder-not_Leads :
      (l : List String) (k : String) → IsOrder l → contains l k ≡ true → ¬ Leads k k
  IsOrder-not_Leads [] k o m p = not-contains-nil _ m
  IsOrder-not_Leads (x ∷ rest) k o m p = elim (contains-cons_cases x k rest m) [
    | inr m' ↦ IsOrder-not_Leads rest k o.1 m' p
    | inl e ↦ IsOrder-not_Leads rest k o.1 (returns p e) p
  ]
    where
      returns : Leads k k → x ≡ k → contains rest k ≡ true
      returns (one s) e = step_behind x rest o e s
      returns (more s q) e = Leads-behind rest o.1 (step_behind x rest o e s) q
