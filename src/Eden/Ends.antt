-- ===== src/Eden/Ends.antt =====
-- The loop that looks for an EdenFS root ends: server/eden/eden.go.
use flit_el.Prelude.{
  ℕ, zero, suc, ◌+◌, ◌≤◌, ◌≡◌, ◌≢◌, ◌⊎◌, inl, inr, refl, arith, Bool, true, false, Option, none,
  some, Text, length, text_eq, text_beq, ◌==◌, ==_iff, ◌||◌, Bool-cases,
}
use flit_el.Filepath.{
  dir, clean, is_rooted, through_last_slash, split_slash, join_slash, root_text, dot_text,
}
use flit_el.Filepath.Shrinks.{dir-shrinks}
use flit_el.FsHandler.Os.{Os}
use flit_el.Eden.{Search, root, no_root, out_of_fuel, root_link, search_root, get_eden_root}

abbrev is_top_dir : Text → Bool
is_top_dir d = (d == root_text) || (d == dot_text)

-- "/" and "." are their own directories.
tops_fixed : ((dir root_text == root_text) ≡ true) × ((dir dot_text == dot_text) ≡ true)
unfolding dir clean is_rooted through_last_slash split_slash join_slash text_eq text_beq
tops_fixed = (refl, refl)

top-dir : (d : Text) → is_top_dir d ≡ true → (dir d == d) ≡ true
top-dir d h = elim (Bool-cases (d == root_text)) [
  | inl e ↦ rw ((==_iff d root_text).0 e) tops_fixed.0
  | inr e ↦ rw ((==_iff d dot_text).0 (rw e at h)) tops_fixed.1
]

Enough : ℕ → Text → Type 0
Enough fuel d = ((is_top_dir d ≡ true) × (1 ≤ fuel)) ⊎ (length d + 2 ≤ fuel)

Enough-dir :
    (fuel : ℕ) (d : Text) → (dir d == d) ≡ false → Enough (suc fuel) d → Enough fuel (dir d)
unfolding Enough
Enough-dir fuel d f (inl (t, p)) = absurd (cc (top-dir d t, f))
Enough-dir fuel d f (inr l) = elim (dir-shrinks d) [
  | inl t ↦ inl (t, omega arith)
  | inr s ↦ inr (omega arith)
]

module _ (os : Os) where
  open os use {State}

  some_round : (d : Text) → ¬ Enough 0 d
  unfolding Enough
  some_round d (inl h) = omega (arith, h.1)
  some_round d (inr h) = omega arith

  after_link :
      (fuel : ℕ) (d : Text) (target : Option Text) (s : State)
      → Enough (suc fuel) d
      → ((t : State) → Enough fuel (dir d) → (search_root os fuel (dir d) t).0 ≢ out_of_fuel)
      → (elim target as (λ _. Search × State) [
        | some t ↦ (root t, s)
        | none ↦ elim (dir d == d) as (λ _. Search × State) [
          | true ↦ (no_root, s)
          | false ↦ search_root os fuel (dir d) s
        ]
      ]).0
        ≢ out_of_fuel
  after_link fuel d (some t) s h ih = λ e. cc e
  after_link fuel d none s h ih = elim (Bool-cases (dir d == d)) [
    | inl same ↦ rw same (λ e. cc e)
    | inr other ↦ rw other (ih s (Enough-dir fuel d other h))
  ]

  search_ends :
      (fuel : ℕ) (d : Text) (s : State) → Enough fuel d → (search_root os fuel d s).0 ≢ out_of_fuel
  unfolding search_root
  search_ends zero d s h = absurd (some_round d h)
  search_ends (suc fuel) d s h =
      after_link fuel d (root_link os d s).0 (root_link os d s).1 h
        (λ t enough. search_ends fuel (dir d) t enough)

  -- The loop of GetEdenRoot ends, with a root or at the top of the path, with as many rounds as the
  -- path has bytes and two more.
  pub get_eden_root_ends : (path : Text) (s : State) → (get_eden_root os path s).0 ≢ out_of_fuel
  unfolding get_eden_root Enough
  get_eden_root_ends path s = search_ends _ _ _ (inr (omega arith))
