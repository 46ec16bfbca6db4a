-- ===== src/Base/Finds.antt =====
-- A key that finds a row with a property, and what keeps it so.
use Prim.Native.Nat.{ℕ}
use mathlib.Core.Path.{◌≡◌, ◌∙◌, sym, subst}
use mathlib.Core.Logic.{inl, inr}
use mathlib.Core.Bool.{Bool, true}
use mathlib.Core.Option.{some}
use mathlib.Core.List.{List, ◌++◌, map}
use deepscout.Base.Tests.{◌==◌, Bool-cases, ==_iff}
use deepscout.Base.Table.{
  get_row, set_row, get_row-id, get_row-set_row, get_row-written, get_row-map, get_row-append,
  some-injective,
}

module _ {A : Type 0} (id_of : A → ℕ) (p : A → Bool) where
  abbrev pub Found : ℕ → List A → Type 0
  Found key rows = (row : A) × (get_row id_of key rows ≡ some row) × (p row ≡ true)

  -- A write to a row that was found keeps the property of every key if it keeps it of that row.
  pub Found-write :
      (key id : ℕ) (rows : List A) (row row' : A)
      → get_row id_of id rows ≡ some row
      → id_of row' ≡ id_of row
      → (p row ≡ true → p row' ≡ true)
      → Found key rows
      → Found key (set_row id_of row' rows)
  Found-write key id rows row row' found same keep (old, there, done) =
      let at_id : id_of row' ≡ id = same ∙ get_row-id id_of id rows found in
      elim (Bool-cases (id_of row' == key)) [
        | inr other ↦ (
          old,
          get_row-set_row id_of key row' rows {old = row}
                (subst (λ i. get_row id_of i rows ≡ some row) (sym at_id) found)
              ∙ rw other there,
          done,
        )
        | inl e ↦
            let id_is_key : id ≡ key = sym at_id ∙ (==_iff (id_of row') key).0 e in
            let here : get_row id_of key rows ≡ some row =
              subst (λ i. get_row id_of i rows ≡ some row) id_is_key found in
            let one : old ≡ row = some-injective (sym there ∙ here) in
            (
              row',
              get_row-written id_of key row' rows {old = row} here (at_id ∙ id_is_key),
              keep (subst (λ r. p r ≡ true) one done),
            )
      ]

  pub Found-map :
      (key : ℕ) (f : A → A) (rows : List A)
      → ((r : A) → id_of (f r) ≡ id_of r)
      → ((r : A) → p r ≡ true → p (f r) ≡ true)
      → Found key rows
      → Found key (map f rows)
  Found-map key f rows same keep (old, there, done) =
      (f old, get_row-map id_of f key rows {row = old} same there, keep old done)

  pub Found-append : (key : ℕ) (rows more : List A) → Found key rows → Found key (rows ++ more)
  Found-append key rows more (old, there, done) =
      (old, get_row-append id_of key rows more {row = old} there, done)
