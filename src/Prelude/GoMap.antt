-- ===== src/Prelude/GoMap.antt =====
-- Go's `map[K]V` as an association list; the order in which Go ranges over a map is not modelled.
use mathlib.Core.Path.{◌≡◌, refl, sym, ◌∙◌, subst}
use mathlib.Core.Logic.{inl, inr}
use mathlib.Core.Bool.{true, false}
use mathlib.Core.Option.{Option, none, some}
use mathlib.Core.List.{List, [], ◌∷◌}
use native.Mathlib.Omega.{arith}
use flit_el.Prelude.Tests.{Comparable, ◌==◌, ==_iff, if◌then◌else◌, Bool-cases}
use flit_el.Prelude.Lists.{is_empty}

abbrev pub GoMap {ℓ} : Type 0 → Type ℓ → Type ℓ
GoMap K V = List (K × V)

abbrev pub option_map {ℓ κ} : {V : Type ℓ} {W : Type κ} → (V → W) → Option V → Option W
option_map f none = none
option_map f (some v) = some (f v)

module _ {ℓ} {K : Type 0} {V : Type ℓ} ⦃e : Comparable K⦄ where
  -- v, ok := m[k]
  unfoldable pub lookup : K → GoMap K V → Option V
  lookup k [] = none
  lookup k ((j, v) ∷ m) = if j == k then some v else lookup k m

  -- delete(m, k)
  unfoldable pub erase : K → GoMap K V → GoMap K V
  erase k [] = []
  erase k ((j, v) ∷ m) = let rest = erase k m in if j == k then rest else (j, v) ∷ rest

  -- m[k] = v
  unfoldable pub insert : K → V → GoMap K V → GoMap K V
  unfolding erase
  insert k v m = (k, v) ∷ erase k m

  pub lookup-erase :
      (k j : K) (m : GoMap K V) → lookup j (erase k m) ≡ (if k == j then none else lookup j m)
  unfolding lookup erase
  lookup-erase k j [] = ground arith
  lookup-erase k j ((i, v) ∷ m) =
      ground (arith, lookup-erase k j m, ==_iff i k, ==_iff i j, ==_iff k j)

  pub lookup-insert :
      (k j : K) (v : V) (m : GoMap K V)
      → lookup j (insert k v m) ≡ (if k == j then some v else lookup j m)
  unfolding lookup insert
  lookup-insert k j v m = ground (arith, lookup-erase k j m)

  -- What holds of a new entry and of the old ones holds of each entry.
  pub lookup-insert_rule {κ} :
      (P : K → V → Type κ) (k j : K) (v w : V) (m : GoMap K V)
      → lookup j (insert k v m) ≡ some w
      → P k v
      → (lookup j m ≡ some w → P j w)
      → P j w
  lookup-insert_rule P k j v w m at new old = elim (Bool-cases (k == j)) [
    | inl t ↦
        let found : some v ≡ some w = sym (lookup-insert k j v m ∙ rw t refl) ∙ at in
        let same : v ≡ w = cc in subst (λ i. P i w) ((==_iff k j).0 t) (subst (P k) same new)
    | inr t ↦ old (sym (lookup-insert k j v m ∙ rw t refl) ∙ at)
  ]

  pub lookup-empty : (k : K) → lookup k [] ≡ none
  unfolding lookup
  lookup-empty k = refl

  -- A map with an entry is not empty.
  pub is_empty-lookup : (k : K) (v : V) (m : GoMap K V) → lookup k m ≡ some v → is_empty m ≡ false
  unfolding lookup
  is_empty-lookup k v [] h = cc
  is_empty-lookup k v (x ∷ m) h = refl

  pub is_empty→lookup : (k : K) (m : GoMap K V) → is_empty m ≡ true → lookup k m ≡ none
  unfolding lookup
  is_empty→lookup k [] h = refl
  is_empty→lookup k (x ∷ m) h = cc

  -- A loop that updates each value in place.
  unfoldable pub map_values : (V → V) → GoMap K V → GoMap K V
  map_values f [] = []
  map_values f ((j, v) ∷ m) = (j, f v) ∷ map_values f m

  pub lookup-map_values :
      (f : V → V) (k : K) (m : GoMap K V) → lookup k (map_values f m) ≡ option_map f (lookup k m)
  unfolding lookup map_values
  lookup-map_values f k [] = refl
  lookup-map_values f k ((j, v) ∷ m) = ground (arith, lookup-map_values f k m)

pub ruleset map_laws = (lookup-empty, lookup-erase, lookup-insert, lookup-map_values)
