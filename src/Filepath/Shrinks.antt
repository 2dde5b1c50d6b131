-- ===== src/Filepath/Shrinks.antt =====
-- How long the directory of a path is: filepath.Dir, as server/server/jsonrpc.go calls it in loops.
use flit_el.Prelude.{
  ℕ, suc, ◌+◌, ◌≤◌, ◌<◌, ◌≡◌, ◌⊎◌, inl, inr, refl, ◌∙◌, ap, arith, Bool, true, false, List, [], ◌∷◌,
  ◌++◌, Text, is_empty, length, length-append, text_eq, text_beq, nat_eq, ◌==◌, ==_iff, Bool-cases,
  ◌||◌, if◌then◌else◌,
}
use mathlib.Core.List.{reverse, reverse-append}
use flit_el.Filepath.{
  slash, dot_text, dot_dot, root_text, cons_head, split_slash, join_slash, clean_dot_dot,
  clean_component, clean_components, is_rooted, render, clean, through_last_slash, dir,
}

-- The bytes of the components, and one for each.
total : List Text → ℕ
total [] = 0
total (p ∷ ps) = suc (length p) + total ps

empties : List Text → ℕ
empties [] = 0
empties ([] ∷ ps) = suc (empties ps)
empties ((c ∷ p) ∷ ps) = empties ps

empty_one : Text → ℕ
empty_one [] = 1
empty_one (c ∷ p) = 0

empties-cons : (p : Text) (ps : List Text) → empties (p ∷ ps) ≡ empty_one p + empties ps
unfolding empties empty_one
empties-cons [] ps = omega arith
empties-cons (c ∷ p) ps = omega arith

split-not_empty : (s : Text) → is_empty (split_slash s) ≡ false
unfolding split_slash
split-not_empty [] = refl
split-not_empty (c ∷ s) = elim (Bool-cases (c == slash)) [
  | inl e ↦ rw e refl
  | inr e ↦ rw e (head c (split_slash s))
]
  where
    head : (c : ℕ) (ps : List Text) → is_empty (cons_head c ps) ≡ false
    head c [] = refl
    head c (p ∷ ps) = refl

total-cons_head :
    (c : ℕ) (ps : List Text) → is_empty ps ≡ false → total (cons_head c ps) ≡ suc (total ps)
unfolding total
total-cons_head c [] h = absurd (cc h)
total-cons_head c (p ∷ ps) h = omega arith

total-split : (s : Text) → total (split_slash s) ≡ suc (length s)
unfolding split_slash total
total-split [] = omega arith
total-split (c ∷ s) = elim (Bool-cases (c == slash)) [
  | inl e ↦ rw e (omega (arith, total-split s))
  | inr e ↦
      rw e (omega (arith, total-split s, total-cons_head c (split_slash s) (split-not_empty s)))
]

total-clean_dot_dot :
    (rooted : Bool) (kept : List Text) → total (clean_dot_dot rooted kept) ≤ 3 + total kept
unfolding clean_dot_dot total
total-clean_dot_dot true [] = omega arith
total-clean_dot_dot false [] = omega arith
total-clean_dot_dot rooted (p ∷ kept) = elim (Bool-cases (p == dot_dot)) [
  | inl e ↦ rw e (omega arith)
  | inr e ↦ rw e (omega arith)
]

total-clean_component :
    (rooted : Bool) (p : Text) (kept : List Text)
    → total (clean_component rooted p kept) + empty_one p ≤ suc (length p) + total kept
unfolding clean_component empty_one
total-clean_component rooted [] kept = omega arith
total-clean_component rooted (c ∷ p) kept = elim (Bool-cases ((c ∷ p) == dot_text)) [
  | inl e ↦ rw e (omega arith)
  | inr e ↦ rw e (elim (Bool-cases ((c ∷ p) == dot_dot)) [
    | inl d ↦
        rw d
          (omega (arith, total-clean_dot_dot rooted kept, ap length ((==_iff (c ∷ p) dot_dot).0 d)))
    | inr d ↦ rw d (unfold total in omega arith)
  ])
]

total-clean_components :
    (rooted : Bool) (ps kept : List Text)
    → total (clean_components rooted ps kept) + empties ps ≤ total ps + total kept
unfolding clean_components total empties
total-clean_components rooted [] kept = omega arith
total-clean_components rooted (p ∷ ps) kept = omega (
  arith,
  total-clean_components rooted ps (clean_component rooted p kept),
  total-clean_component rooted p kept,
  empties-cons p ps,
)

total-append : (ps qs : List Text) → total (ps ++ qs) ≡ total ps + total qs
unfolding total
total-append [] qs = omega arith
total-append (p ∷ ps) qs = omega (arith, total-append ps qs)

total-reverse : (ps : List Text) → total (reverse ps) ≡ total ps
unfolding total
total-reverse [] = refl
total-reverse (p ∷ ps) =
    ap total (reverse-append (p ∷ []) ps)
    ∙ total-append (reverse ps) (p ∷ [])
    ∙ omega (arith, total-reverse ps)

length-join_slash :
    (p : Text) (ps : List Text) → suc (length (join_slash (p ∷ ps))) ≡ total (p ∷ ps)
unfolding join_slash total
length-join_slash p [] = omega arith
length-join_slash p (q ∷ ps) =
    omega (arith, length-append p (slash ∷ join_slash (q ∷ ps)), length-join_slash q ps)

cons_head-append :
    (c : ℕ) (ps qs : List Text)
    → is_empty ps ≡ false
    → cons_head c (ps ++ qs) ≡ cons_head c ps ++ qs
cons_head-append c [] qs h = absurd (cc h)
cons_head-append c (p ∷ ps) qs h = refl

split_slash-append : (u : Text) → split_slash (u ++ (slash ∷ [])) ≡ split_slash u ++ ([] ∷ [])
unfolding split_slash
split_slash-append [] = refl
split_slash-append (c ∷ u) = elim (Bool-cases (c == slash)) [
  | inl e ↦ rw e (ap (◌∷◌ []) (split_slash-append u))
  | inr e ↦ rw e (
      ap (cons_head c) (split_slash-append u)
      ∙ cons_head-append c (split_slash u) ([] ∷ []) (split-not_empty u))
]

empties-append : (ps : List Text) → empties (ps ++ ([] ∷ [])) ≡ suc (empties ps)
unfolding empties
empties-append [] = refl
empties-append ([] ∷ ps) = ap suc (empties-append ps)
empties-append ((c ∷ p) ∷ ps) = empties-append ps

-- A path from the root has an empty component.
empties-rooted : (c : ℕ) (u : Text) → c ≡ slash → 1 ≤ empties (split_slash (c ∷ u))
unfolding split_slash empties
empties-rooted c u e = rw e (omega arith)

-- The end of a path after which its directory ends.
SplitsAt : Text → Text → Type 0
SplitsAt s t = (t ≡ []) ⊎ ((u : Text) × (t ≡ u ++ (slash ∷ [])) × (length u < length s))

last_slash_cases : (s : Text) → SplitsAt s (through_last_slash s)
unfolding through_last_slash SplitsAt
last_slash_cases [] = inl refl
last_slash_cases (c ∷ s) = from (through_last_slash s) (last_slash_cases s)
  where
    from :
        (t : Text)
        → SplitsAt s t
        → SplitsAt (c ∷ s) (if is_empty t then (if c == slash then c ∷ [] else []) else c ∷ t)
    from [] h = elim (Bool-cases (c == slash)) [
      | inl e ↦ rw e (inr ([], ap (λ x. x ∷ []) ((==_iff c slash).0 e), omega arith))
      | inr e ↦ rw e (inl refl)
    ]
    from (d ∷ t) (inl h) = absurd (cc h)
    from (d ∷ t) (inr (u, e, l)) = inr (c ∷ u, ap (◌∷◌ c) e, omega arith)

is_top_text : Text → Bool
is_top_text p = (p == root_text) || (p == dot_text)

length-render :
    (rooted : Bool) (ps : List Text) (k : ℕ)
    → total ps ≤ k
    → (rooted ≡ true → total ps < k)
    → (is_top_text (render rooted ps) ≡ true) ⊎ (length (render rooted ps) < k)
unfolding render is_top_text text_beq text_eq join_slash
length-render true [] k h r = inl refl
length-render false [] k h r = inl refl
length-render true (p ∷ ps) k h r = inr (omega (arith, length-join_slash p ps, r refl))
length-render false (p ∷ ps) k h r = inr (omega (arith, length-join_slash p ps))

-- The components of what ends in a slash.
kept_total :
    (rooted : Bool) (u : Text)
    → total (reverse (clean_components rooted (split_slash (u ++ (slash ∷ []))) []))
        + suc (empties (split_slash u))
      ≤ suc (suc (length u))
unfolding total
kept_total rooted u =
    let t = u ++ (slash ∷ []) in
    omega (
      arith,
      total-reverse (clean_components rooted (split_slash t) []),
      total-clean_components rooted (split_slash t) [],
      total-split t,
      length-append u (slash ∷ []),
      ap empties (split_slash-append u),
      empties-append (split_slash u),
    )

rooted_total :
    (c : ℕ) (u : Text)
    → is_rooted ((c ∷ u) ++ (slash ∷ [])) ≡ true
    → 1 ≤ empties (split_slash (c ∷ u))
unfolding is_rooted
rooted_total c u h = empties-rooted c u ((==_iff c slash).0 h)

clean_shrinks :
    (u : Text) (k : ℕ)
    → length u < k
    → (is_top_text (clean (u ++ (slash ∷ []))) ≡ true) ⊎ (length (clean (u ++ (slash ∷ []))) < k)
unfolding clean is_top_text text_eq text_beq
clean_shrinks [] k h = inl refl
clean_shrinks (c ∷ u) k h =
    let t = (c ∷ u) ++ (slash ∷ []) in
    let ps = reverse (clean_components (is_rooted t) (split_slash t) []) in
    length-render (is_rooted t) ps k (omega (arith, kept_total (is_rooted t) (c ∷ u)))
      (λ r. omega (arith, kept_total (is_rooted t) (c ∷ u), rooted_total c u r))

clean_of_empty : is_top_text (clean []) ≡ true
unfolding clean is_top_text text_eq text_beq
clean_of_empty = refl

-- The directory of a path is "/" or ".", or has fewer bytes than the path.
pub dir-shrinks :
    (s : Text)
    → (((dir s == root_text) || (dir s == dot_text)) ≡ true) ⊎ (length (dir s) < length s)
unfolding dir is_top_text SplitsAt
dir-shrinks s = elim (last_slash_cases s) [
  | inl e ↦ rw e (inl clean_of_empty)
  | inr (u, e, l) ↦ rw e (clean_shrinks u (length s) l)
]
