-- ===== src/Prelude/Sweep.antt =====
-- A loop that does something to each object that a map names by its key in a store.
use mathlib.Core.Path.{◌≡◌, refl, sym, ap, ◌∙◌, subst}
use mathlib.Core.Logic.{◌⊎◌, inl, inr}
use mathlib.Core.Option.{none, some}
use mathlib.Core.List.{[], ◌∷◌}
use Prim.Native.Nat.{ℕ}
use flit_el.Prelude.Tests.{◌==◌, nat_eq, ==_self, if◌then◌else◌, Bool-cases, Option-cases}
use flit_el.Prelude.GoMap.{GoMap, lookup, insert, lookup-insert}

-- An object at the key in the store of which P holds.
abbrev pub HasAt : {O : Type 0} → (O → Type 0) → ℕ → GoMap ℕ O → Type 0
HasAt {O} P k store = (o : O) × (lookup k store ≡ some o) × P o

-- Each object of the first store that the map names has P in the second.
abbrev pub Each : {K O : Type 0} → (O → Type 0) → GoMap K ℕ → GoMap ℕ O → GoMap ℕ O → Type 0
Each P [] before after = Unit
Each P ((id, k) ∷ ks) before after =
    ((lookup k before ≡ none) ⊎ HasAt P k after) × Each P ks before after

module _ {M O : Type 0} (store : M → GoMap ℕ O) (visit : ℕ → M → M) (P : O → Type 0) where
  -- A visit makes P hold of its object, and keeps every object and P of it.
  pub record Visits : Type 0 where
    pub makes :
        (k : ℕ) (m : M) (o : O) → lookup k (store m) ≡ some o → HasAt P k (store (visit k m))
    pub keeps : (j k : ℕ) (m : M) → HasAt P k (store m) → HasAt P k (store (visit j m))
    pub leaves :
        (j k : ℕ) (m : M) (o : O)
        → lookup k (store m) ≡ some o
        → (o' : O) × (lookup k (store (visit j m)) ≡ some o')

  module _ (f : O → O)
      (hit : (j : ℕ) (m : M) (o : O)
        → lookup j (store m) ≡ some o
        → store (visit j m) ≡ insert j (f o) (store m))
      (miss : (j : ℕ) (m : M) → lookup j (store m) ≡ none → visit j m ≡ m)
      (all : (o : O) → P (f o)) where
    at_visited :
        (j k : ℕ) (m : M) (o : O)
        → lookup j (store m) ≡ some o
        → lookup k (store (visit j m)) ≡ (if j == k then some (f o) else lookup k (store m))
    at_visited j k m o e = ap (lookup k) (hit j m o e) ∙ lookup-insert j k (f o) (store m)

    update-keeps : (j k : ℕ) (m : M) → HasAt P k (store m) → HasAt P k (store (visit j m))
    update-keeps j k m h = elim (Option-cases (lookup j (store m))) [
      | inl e ↦ subst (λ m'. HasAt P k (store m')) (sym (miss j m e)) h
      | inr (o, e) ↦ elim (Bool-cases (j == k)) [
        | inl t ↦ (f o, at_visited j k m o e ∙ rw t refl, all o)
        | inr t ↦ (h.0, at_visited j k m o e ∙ rw t h.1, h.2)
      ]
    ]

    update-leaves :
        (j k : ℕ) (m : M) (o : O)
        → lookup k (store m) ≡ some o
        → (o' : O) × (lookup k (store (visit j m)) ≡ some o')
    update-leaves j k m o at = elim (Option-cases (lookup j (store m))) [
      | inl e ↦ (o, ap (λ m'. lookup k (store m')) (miss j m e) ∙ at)
      | inr (q, e) ↦ elim (Bool-cases (j == k)) [
        | inl t ↦ (f q, at_visited j k m q e ∙ rw t refl)
        | inr t ↦ (o, at_visited j k m q e ∙ rw t at)
      ]
    ]

    -- A change of the object by a function that makes P hold is such a visit.
    pub update_visits : Visits
    update_visits = record {
      makes = λ k m o e. (f o, at_visited k k m o e ∙ rw (==_self k) refl, all o);
      keeps = update-keeps;
      leaves = update-leaves;
    }

  abbrev pub sweep : {K : Type 0} → GoMap K ℕ → M → M
  sweep [] m = m
  sweep ((id, k) ∷ ks) m = sweep ks (visit k m)

  module _ {K : Type 0} (v : Visits) where
    sweep-keeps :
        (ks : GoMap K ℕ) (k : ℕ) (m : M) → HasAt P k (store m) → HasAt P k (store (sweep ks m))
    sweep-keeps [] k m h = h
    sweep-keeps ((id, j) ∷ ks) k m h = sweep-keeps ks k (visit j m) (v.keeps j k m h)

    Each-leaves :
        (ks : GoMap K ℕ) (j : ℕ) (m : M) (after : GoMap ℕ O)
        → Each P ks (store (visit j m)) after
        → Each P ks (store m) after
    Each-leaves [] j m after h = tt
    Each-leaves ((id, k) ∷ ks) j m after (here, rest) = (
      elim here [
        | inr at ↦ inr at
        | inl none_left ↦ elim (Option-cases (lookup k (store m))) [
          | inl e ↦ inl e
          | inr (o, e) ↦ let (o', e') = v.leaves j k m o e in absurd (cc (e', none_left))
        ]
      ],
      Each-leaves ks j m after rest,
    )

    -- After the loop P holds of every object that the map names.
    pub sweep-Each : (ks : GoMap K ℕ) (m : M) → Each P ks (store m) (store (sweep ks m))
    sweep-Each [] m = tt
    sweep-Each ((id, k) ∷ ks) m = (
      elim (Option-cases (lookup k (store m))) [
        | inl e ↦ inl e
        | inr (o, e) ↦ inr (sweep-keeps ks k (visit k m) (v.makes k m o e))
      ],
      Each-leaves ks k m (store (sweep ks (visit k m))) (sweep-Each ks (visit k m)),
    )
