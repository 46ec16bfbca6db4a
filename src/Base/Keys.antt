-- ===== src/Base/Keys.antt =====
-- Sets and dictionaries with text keys, as Python keeps them: in order of first insertion.
use Prim.Native.Nat.{ℕ, ◌+◌, ◌≤◌, ◌<◌}
use Prim.Native.String.{String}
use mathlib.Core.Path.{◌≡◌, refl}
use mathlib.Core.Logic.{◌⊎◌, inl, inr}
use mathlib.Core.Bool.{Bool, true, false, ◌||◌}
use mathlib.Core.Option.{Option, none, some}
use mathlib.Core.List.{List, [], ◌∷◌}
use native.Mathlib.Omega.{arith}
use text.Mathlib.Text.{◌==◌}
use text.Mathlib.TextEquality.{eq_iff}
use deepscout.Base.Tests.{if◌then◌else◌, Bool-cases}
use deepscout.Base.Lists.{length}

-- `key in keys`
unfoldable pub contains : List String → String → Bool
contains [] k = false
contains (x ∷ xs) k = x == k || contains xs k

-- `keys.remove(key)`, for a key that is there.
unfoldable pub discard : String → List String → List String
discard k [] = []
discard k (x ∷ xs) = if x == k then xs else x ∷ discard k xs

-- Every key of the first list is in the second.
abbrev pub Included : List String → List String → Type 0
Included xs ys = (k : String) → contains xs k ≡ true → contains ys k ≡ true

pub not-contains-nil : (k : String) → ¬ (contains [] k ≡ true)
unfolding contains
not-contains-nil k h = cc

pub contains-cons_self : (k : String) (xs : List String) → contains (k ∷ xs) k ≡ true
unfolding contains
contains-cons_self k xs = ground (arith, eq_iff k k)

pub contains-cons_of :
    (j k : String) (xs : List String) → contains xs k ≡ true → contains (j ∷ xs) k ≡ true
unfolding contains
contains-cons_of j k xs h = ground arith

pub contains-cons_cases :
    (j k : String) (xs : List String)
    → contains (j ∷ xs) k ≡ true
    → (j ≡ k) ⊎ (contains xs k ≡ true)
unfolding contains
contains-cons_cases j k xs h = ground (arith, eq_iff j k)

pub discard-cons_self : (k : String) (xs : List String) → discard k (k ∷ xs) ≡ xs
unfolding discard
discard-cons_self k xs = ground (arith, eq_iff k k)

-- How many of the keys are not in the set.
unfoldable pub fresh_count : List String → List String → ℕ
fresh_count seen [] = 0
fresh_count seen (k ∷ ks) = (if contains seen k then 0 else 1) + fresh_count seen ks

pub fresh_count-cons_le :
    (seen : List String) (j : String) (ks : List String)
    → fresh_count (j ∷ seen) ks ≤ fresh_count seen ks
unfolding fresh_count contains
fresh_count-cons_le seen j [] = omega arith
fresh_count-cons_le seen j (k ∷ ks) = ground (arith, fresh_count-cons_le seen j ks)

-- A key of the list that is new to the set lowers the count when it is added.
pub fresh_count-cons_lt :
    (seen : List String) (j : String) (ks : List String)
    → contains ks j ≡ true
    → contains seen j ≡ false
    → fresh_count (j ∷ seen) ks < fresh_count seen ks
unfolding fresh_count contains
fresh_count-cons_lt seen j [] h new = cc
fresh_count-cons_lt seen j (k ∷ ks) h new =
    ground
      (arith, eq_iff j k, eq_iff k j, fresh_count-cons_le seen j ks, fresh_count-cons_lt seen j ks)

pub fresh_count-le-length : (seen ks : List String) → fresh_count seen ks ≤ length ks
unfolding fresh_count
fresh_count-le-length seen [] = omega arith
fresh_count-le-length seen (k ∷ ks) = ground (arith, fresh_count-le-length seen ks)

-- A dictionary as an association list. A write to a key that is there keeps its place.
module _ {ℓ} {A : Type ℓ} where
  unfoldable pub lookup : String → List (String × A) → Option A
  lookup key [] = none
  lookup key ((other, value) ∷ d) = if other == key then some value else lookup key d

  unfoldable pub insert : String → A → List (String × A) → List (String × A)
  insert key value [] = (key, value) ∷ []
  insert key value ((other, held) ∷ d) =
      if other == key then (other, value) ∷ d else (other, held) ∷ insert key value d

  abbrev pub keys_of : List (String × A) → List String
  keys_of [] = []
  keys_of ((other, value) ∷ d) = other ∷ keys_of d

  abbrev pub values_of : List (String × A) → List A
  values_of [] = []
  values_of ((other, value) ∷ d) = value ∷ values_of d

  pub lookup-insert :
      (key other : String) (value : A) (d : List (String × A))
      → lookup other (insert key value d) ≡ (if key == other then some value else lookup other d)
  unfolding lookup insert
  lookup-insert key other value [] = refl
  lookup-insert key other value ((first, held) ∷ d) = ground (
    arith,
    lookup-insert key other value d,
    eq_iff first other,
    eq_iff first key,
    eq_iff key other,
  )

  pub contains-keys_of-insert :
      (key other : String) (value : A) (d : List (String × A))
      → contains (keys_of (insert key value d)) other ≡ (key == other || contains (keys_of d) other)
  unfolding insert contains
  contains-keys_of-insert key other value [] = ground arith
  contains-keys_of-insert key other value ((first, held) ∷ d) = ground (
    arith,
    eq_iff key other,
    eq_iff first key,
    eq_iff first other,
    contains-keys_of-insert key other value d,
  )

  -- A key is in the dictionary exactly when it has a value.
  pub lookup_of_contains :
      (key : String) (d : List (String × A))
      → contains (keys_of d) key ≡ true
      → (value : A) × (lookup key d ≡ some value)
  unfolding lookup contains
  lookup_of_contains key [] h = absurd (cc)
  lookup_of_contains key ((other, value) ∷ d) h = elim (Bool-cases (other == key)) [
    | inl e ↦ (value, rw e)
    | inr e ↦ let (held, p) = lookup_of_contains key d (rw e at h) in (held, rw e p)
  ]

  pub contains_of_lookup :
      (key : String) (d : List (String × A)) {value : A}
      → lookup key d ≡ some value
      → contains (keys_of d) key ≡ true
  unfolding lookup contains
  contains_of_lookup key [] {value = value} h = cc
  contains_of_lookup key ((other, held) ∷ d) {value = value} h =
      ground (arith, contains_of_lookup key d {value = value})
