-- ===== src/Notices/Ends.antt =====
-- The loops over a path's ancestors end: server/server/jsonrpc.go.
use flit_el.Prelude.{
  ℕ, zero, suc, ◌+◌, ◌≤◌, ◌≡◌, ◌⊎◌, inl, inr, refl, arith, Bool, true, false, Option, some, List,
  [], ◌∷◌, ◌++◌, Text, length, Bool-cases,
}
use flit_el.Filepath.{dir, root_text}
use flit_el.Filepath.Shrinks.{dir-shrinks}
use flit_el.Watcher.Interface.{Fsnotify}
use flit_el.FsHandler.Os.{Os}
use flit_el.Notices.World.{ask}
use flit_el.Notices.Changes.{Here}
use flit_el.Notices.Prefetch.{is_top, climb, ancestors}
use flit_el.Notices.Pending.{find_ancestor, is_directory_there}

-- Enough rounds for the ancestors from `current` up.
Enough : ℕ → Text → Type 0
Enough fuel current = (1 ≤ fuel) × ((is_top current ≡ true) ⊎ (length current + 2 ≤ fuel))

Enough-dir :
    (fuel : ℕ) (current : Text)
    → is_top current ≡ false
    → Enough (suc fuel) current
    → Enough fuel (dir current)
unfolding Enough
Enough-dir fuel current f (p, inl t) = absurd (cc (t, f))
Enough-dir fuel current f (p, inr l) = elim (dir-shrinks current) [
  | inl t ↦ (omega arith, inl t)
  | inr d ↦ (omega arith, inr (omega arith))
]

Enough-length : (path : Text) → Enough (suc (length path)) (dir path)
unfolding Enough
Enough-length path = elim (dir-shrinks path) [
  | inl t ↦ (omega arith, inl t)
  | inr d ↦ (omega arith, inr (omega arith))
]

climb_ends :
    (fuel : ℕ) (current : Text)
    → Enough fuel current
    → (ps : List Text) × (climb fuel current ≡ some ps)
unfolding climb
climb_ends zero current h = absurd (unfold Enough in omega (arith, h.0))
climb_ends (suc fuel) current h = elim (Bool-cases (is_top current)) [
  | inl t ↦ ([], rw t refl)
  | inr f ↦
      let (ps, e) = climb_ends fuel (dir current) (Enough-dir fuel current f h) in
      (current ∷ ps, rw f (rw e refl))
]

either :
    {W : Type 0} (b : Bool) (x y : Option Text × W)
    → (a : Text) × (x.0 ≡ some a)
    → (a : Text) × (y.0 ≡ some a)
    → (a : Text) × ((elim b as (λ _. Option Text × W) [ true ↦ x | false ↦ y ]).0 ≡ some a)
either true x y p q = p
either false x y p q = q

module _ (n : Fsnotify) (os : Os) where
  find_ancestor_ends :
      (fuel : ℕ) (current : Text) (w : Here n os)
      → Enough fuel current
      → (a : Text) × ((find_ancestor n os fuel current w).0 ≡ some a)
  unfolding find_ancestor
  find_ancestor_ends zero current w h = absurd (unfold Enough in omega (arith, h.0))
  find_ancestor_ends (suc fuel) current w h = elim (Bool-cases (is_top current)) [
    | inl t ↦ (current, rw (t, find_ancestor) refl)
    | inr f ↦
        let (r, w') = ask (os.stat current) w in
        rw (f, find_ancestor)
          (either (is_directory_there n os r) (some current, w')
            (find_ancestor n os fuel (dir current) w') (current, refl)
            (find_ancestor_ends fuel (dir current) w' (Enough-dir fuel current f h)))
  ]

  -- The loops of PrefetchAncestors and of WatchPendingFile over the ancestors of a path end, with as
  -- many rounds as the path has bytes and one more.
  pub ancestor_loops_end :
      (path : Text) (w : Here n os)
      → ((ps : List Text) × (ancestors path ≡ some (ps ++ (root_text ∷ []))))
        × ((a : Text) × ((find_ancestor n os (suc (length path)) (dir path) w).0 ≡ some a))
  unfolding ancestors
  ancestor_loops_end path w =
      let (ps, e) = climb_ends (suc (length path)) (dir path) (Enough-length path) in
      ((ps, rw e refl), find_ancestor_ends (suc (length path)) (dir path) w (Enough-length path))
