-- ===== src/Base/Table.antt =====
-- A table of the database: rows in order of insertion, found by their primary key. The session's
-- identity map makes a loaded row one object, so a change to it is a change in the table.
use Prim.Native.Nat.{ℕ}
use mathlib.Core.Path.{◌≡◌, ◌∙◌, refl, sym, ap, subst}
use mathlib.Core.Logic.{inl, inr}
use mathlib.Core.Bool.{true, false}
use mathlib.Core.Option.{Option, none, some}
use mathlib.Core.List.{List, [], ◌∷◌, ◌++◌, map}
use native.Mathlib.Omega.{arith}
use deepscout.Base.Tests.{◌==◌, if◌then◌else◌, Bool-cases, ==_iff}
use deepscout.Base.Lists.{All, Exists}

subst-some {ℓ κ} :
    {A : Type ℓ} (P : A → Type κ) {a b : A} → ◌≡◌ {A = Option A} (some a) (some b) → P a → P b
subst-some P {a} {b} e p = subst P (cc) p

pub some-injective {ℓ} : {A : Type ℓ} {a b : A} → ◌≡◌ {A = Option A} (some a) (some b) → a ≡ b
some-injective e = cc

-- A primary key: no two are the same.
abbrev pub Distinct : List ℕ → Type 0
Distinct [] = Unit
Distinct (i ∷ is) = All (λ j. (i == j) ≡ false) is × Distinct is

-- A property of every row holds of each of them.
pub All-member :
    {A : Type 0} (P : A → Type 0) (rows : List A) (row : A)
    → All P rows
    → Exists (λ r. r ≡ row) rows
    → P row
All-member P [] row all x = absurd x
All-member P (r ∷ rows) row all (inl e) = subst P e all.0
All-member P (r ∷ rows) row all (inr x) = All-member P rows row all.1 x

module _ {A : Type 0} (id_of : A → ℕ) where
  differs :
      (i : ℕ) (rows : List A) (row : A)
      → All (λ j. (i == j) ≡ false) (map id_of rows)
      → Exists (λ r. r ≡ row) rows
      → (i == id_of row) ≡ false
  differs i [] row all x = absurd x
  differs i (r ∷ rows) row all (inl e) = subst (λ (q : A). (i == id_of q) ≡ false) e all.0
  differs i (r ∷ rows) row all (inr x) = differs i rows row all.1 x

module _ {ℓ} {A : Type ℓ} (id_of : A → ℕ) where
  -- `session.get(Row, key)`
  unfoldable pub get_row : ℕ → List A → Option A
  get_row key [] = none
  get_row key (row ∷ rows) = if id_of row == key then some row else get_row key rows

  -- The table after an assignment to the fields of the row with this key.
  unfoldable pub set_row : A → List A → List A
  set_row new [] = []
  set_row new (row ∷ rows) = if id_of row == id_of new then new ∷ rows else row ∷ set_row new rows

  pub get_row-id :
      (key : ℕ) (rows : List A) {row : A} → get_row key rows ≡ some row → id_of row ≡ key
  unfolding get_row
  get_row-id key [] h = absurd (cc)
  get_row-id key (r ∷ rows) {row = row} h = elim (Bool-cases (id_of r == key)) [
    | inl e ↦ ground arith
    | inr e ↦ get_row-id key rows (rw e at h)
  ]

  pub get_row-set_row :
      (key : ℕ) (new : A) (rows : List A) {old : A}
      → get_row (id_of new) rows ≡ some old
      → get_row key (set_row new rows) ≡ (if id_of new == key then some new else get_row key rows)
  unfolding get_row set_row
  get_row-set_row key new [] h = absurd (cc)
  get_row-set_row key new (row ∷ rows) {old = old} h = elim (Bool-cases (id_of row == id_of new)) [
    | inl e ↦ rw e (ground arith)
    | inr e ↦ rw e (ground (arith, get_row-set_row key new rows {old = old} (rw e at h)))
  ]

  -- The row that was written is the one that its key finds.
  pub get_row-written :
      (key : ℕ) (new : A) (rows : List A) {old : A}
      → get_row key rows ≡ some old
      → id_of new ≡ key
      → get_row key (set_row new rows) ≡ some new
  get_row-written key new rows {old = old} found e =
      get_row-set_row key new rows {old = old} (rw e found)
      ∙ (let same : (id_of new == key) ≡ true = ground arith in rw same refl)

  -- A change of every row that keeps its key changes the row that is found.
  pub get_row-map :
      (f : A → A) (key : ℕ) (rows : List A) {row : A}
      → ((r : A) → id_of (f r) ≡ id_of r)
      → get_row key rows ≡ some row
      → get_row key (map f rows) ≡ some (f row)
  unfolding get_row
  get_row-map f key [] keep h = absurd (cc)
  get_row-map f key (r ∷ rows) {row = row} keep h = elim (Bool-cases (id_of r == key)) [
    | inl e ↦
        let e' : (id_of (f r) == key) ≡ true = rw (keep r) e in
        let same : r ≡ row = some-injective (rw e at h) in rw e' (ap (λ q. some (f q)) same)
    | inr e ↦
        let e' : (id_of (f r) == key) ≡ false = rw (keep r) e in
        rw e' (get_row-map f key rows keep (rw e at h))
  ]

  -- A property of every row holds of the one that is found.
  pub All-get_row {κ} :
      (P : A → Type κ) (key : ℕ) (rows : List A) {row : A}
      → All P rows
      → get_row key rows ≡ some row
      → P row
  unfolding get_row
  All-get_row P key [] all h = absurd (cc)
  All-get_row P key (r ∷ rows) {row = row} all h = elim (Bool-cases (id_of r == key)) [
    | inl e ↦ subst-some P (rw e at h) all.0
    | inr e ↦ All-get_row P key rows all.1 (rw e at h)
  ]

  pub All-set_row {κ} :
      (P : A → Type κ) (new : A) (rows : List A) → P new → All P rows → All P (set_row new rows)
  unfolding set_row
  All-set_row P new [] p all = tt
  All-set_row P new (row ∷ rows) p all = elim (Bool-cases (id_of row == id_of new)) [
    | inl e ↦ rw e (p, all.1)
    | inr e ↦ rw e (all.0, All-set_row P new rows p all.1)
  ]

module _ {A : Type 0} (id_of : A → ℕ) where
  pub map-set_row : (new : A) (rows : List A) → map id_of (set_row id_of new rows) ≡ map id_of rows
  unfolding set_row
  map-set_row new [] = refl
  map-set_row new (row ∷ rows) = elim (Bool-cases (id_of row == id_of new)) [
    | inl e ↦ rw e (ap (λ i. i ∷ map id_of rows) (sym ((==_iff (id_of row) (id_of new)).0 e)))
    | inr e ↦ rw e (ap (λ is. id_of row ∷ is) (map-set_row new rows))
  ]

  get_row-head : (row : A) (rows : List A) → get_row id_of (id_of row) (row ∷ rows) ≡ some row
  unfolding get_row
  get_row-head row rows = ground arith

  pub get_row-append :
      (key : ℕ) (rows more : List A) {row : A}
      → get_row id_of key rows ≡ some row
      → get_row id_of key (rows ++ more) ≡ some row
  unfolding get_row
  get_row-append key [] more h = absurd (cc)
  get_row-append key (r ∷ rows) more {row = row} h = elim (Bool-cases (id_of r == key)) [
    | inl e ↦ rw e (rw e at h)
    | inr e ↦ rw e (get_row-append key rows more {row = row} (rw e at h))
  ]

  -- With distinct keys each row is the one that its key finds.
  pub get_row_of_member :
      (rows : List A) (row : A)
      → Distinct (map id_of rows)
      → Exists (λ r. r ≡ row) rows
      → get_row id_of (id_of row) rows ≡ some row
  unfolding get_row
  get_row_of_member [] row d x = absurd x
  get_row_of_member (r ∷ rows) row d (inl e) =
      subst (λ (q : A). get_row id_of (id_of q) (r ∷ rows) ≡ some q) e (get_row-head r rows)
  get_row_of_member (r ∷ rows) row d (inr x) =
      rw (differs id_of (id_of r) rows row d.0 x) (get_row_of_member rows row d.1 x)
