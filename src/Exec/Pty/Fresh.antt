-- ===== src/Exec/Pty/Fresh.antt =====
-- The ids of terminal sessions: server/exec/pty.go.
use flit_el.Prelude.{
  ℕ, ◌+◌, ◌≡◌, refl, ◌∙◌, arith, Bool, true, false, Option, none, some, [], ◌∷◌, Text, Bytes, ◌<◌,
  ap, ◌==◌, ==_self, ==_iff, inl, inr, Bool-cases, if◌then◌else◌,
}
use flit_el.Prelude.GoMap.{lookup, insert, lookup-insert, lookup-erase, lookup-empty}
use flit_el.Prelude.Int64.{ℤ, pos, int_eq, add_one_int64, add_one_int64_pos, max_int64}
use flit_el.Prelude.Results.{Result, ok, err}
use flit_el.Exec.Pty.{
  new_pty, Pty, PtyManager, WaitResult, new_pty_manager, create, read_output, pty_exited, input_pty,
  pty_input, pty_close_all, pty_closed, pty_system_error,
}

-- What changes a manager whose counter has not reached the largest int64.
pub data Step : PtyManager → PtyManager → Type 0 where
  creates :
      (started : Bool) (m : PtyManager) (k : ℕ)
      → m.next_id ≡ pos k
      → k < max_int64
      → Step m (create started m).1
  reads : (id : ℤ) (bytes : Bytes) (m : PtyManager) → Step m (read_output id bytes m)
  exits : (id : ℤ) (r : WaitResult) (m : PtyManager) → Step m (pty_exited id r m)
  inputs :
      (answer : Result Text (Unit {0})) (id : ℤ) (bytes : Bytes) (m : PtyManager)
      → Step m (pty_input answer id bytes m).1
  closes : (m : PtyManager) → Step m (pty_close_all m).1

pub data Reach : PtyManager → Type 0 where
  start : Reach new_pty_manager
  next : {m m' : PtyManager} → Reach m → Step m m' → Reach m'

-- The counter is not below zero, and no id above it is in use.
Below : PtyManager → Type 0
Below m = (k : ℕ) × (m.next_id ≡ pos k) × ((j : ℕ) → k < j → lookup (pos j) m.ptys ≡ none)

either-Below :
    {A : Type 0} (b : Bool) (x y : A × PtyManager)
    → Below x.1
    → Below y.1
    → Below (if b then x else y).1
either-Below true x y p q = p
either-Below false x y p q = q

-- A session that is there is replaced.
replace-Below :
    (id : ℤ) (p q : Pty) (m : PtyManager)
    → lookup id m.ptys ≡ some p
    → Below m
    → Below (record m { ptys = insert id q m.ptys })
unfolding Below
replace-Below id p q m e (k, c, h) = (
  k,
  c,
  λ j l. lookup-insert id (pos j) q m.ptys ∙ (elim (Bool-cases (id == pos j)) [
    | inl s ↦ absurd (cc (h j l, e, (==_iff id (pos j)).0 s))
    | inr d ↦ rw d (h j l)
  ]),
)

input-Below :
    (id : ℤ) (bytes : Bytes) (answer : Result Text (Unit {0})) (o : Option Pty) (m : PtyManager)
    → lookup id m.ptys ≡ o
    → Below m
    → Below (input_pty id bytes answer o m).1
unfolding input_pty
input-Below id bytes answer none m e h = h
input-Below id bytes (err t) (some p) m e h =
    either-Below p.closed (err pty_closed, m) (err (pty_system_error t), m) h h
input-Below id bytes (ok u) (some p) m e h =
    either-Below p.closed (err pty_closed, m) (ok tt, _) h (replace-Below id p _ m e h)

other_id : (k j : ℕ) → k < j → (pos k == pos j) ≡ false
other_id k j l = ground arith

create-Below :
    (p : Pty) (m : PtyManager) (n : ℕ)
    → m.next_id ≡ pos n
    → n < max_int64
    → Below m
    → Below (record m {
      next_id = add_one_int64 m.next_id;
      ptys = insert (add_one_int64 m.next_id) p m.ptys;
    })
unfolding Below
create-Below p m n e l (k, c, h) =
    let same : n ≡ k = ground (arith, e, c) in
    let next : add_one_int64 m.next_id ≡ pos (n + 1) = ap add_one_int64 e ∙ add_one_int64_pos n l in
    (
      n + 1,
      next,
      λ j lj.
          ap (λ x. lookup (pos j) (insert x p m.ptys)) next
          ∙ lookup-insert (pos (n + 1)) (pos j) p m.ptys
          ∙ rw (other_id (n + 1) j lj) (h j (omega (arith, same))),
    )

exit-Below : (id : ℤ) (r : WaitResult) (m : PtyManager) → Below m → Below (pty_exited id r m)
unfolding Below pty_exited
exit-Below id r m (k, c, h) = (
  k,
  c,
  λ j l.
      lookup-erase id (pos j) m.ptys
      ∙ (elim (Bool-cases (id == pos j)) [ inl s ↦ rw s refl | inr d ↦ rw d (h j l) ]),
)

nothing-Below : (m : PtyManager) → Below m → Below (record m { ptys = [] })
unfolding Below
nothing-Below m (k, c, h) = (k, c, λ j l. lookup-empty (pos j))

Step-Below : {m m' : PtyManager} → Step m m' → Below m → Below m'
unfolding create read_output pty_input pty_close_all Below
Step-Below (creates true m k e l) h = create-Below _ m k e l h
Step-Below (creates false m k e l) h = h
Step-Below (reads id [] m) h = h
Step-Below (reads id (b ∷ bytes) m) h = h
Step-Below (exits id r m) h = exit-Below id r m h
Step-Below (inputs answer id bytes m) h = input-Below id bytes answer (lookup id m.ptys) m refl h
Step-Below (closes m) h = nothing-Below m h

start-Below : Below new_pty_manager
unfolding new_pty_manager Below
start-Below = (0, refl, λ j l. lookup-empty (pos j))

Reach-Below : {m : PtyManager} → Reach m → Below m
Reach-Below start = start-Below
Reach-Below (next r s) = Step-Below s (Reach-Below r)

-- In whatever order sessions are created, read, written, ended and closed, while the counter has not
-- reached the largest int64, a session that Create starts gets an id that is not in use: it is stored
-- under that id, and every other session is as it was.
pub create_fresh :
    (m : PtyManager) (k : ℕ) (other : ℤ)
    → Reach m
    → m.next_id ≡ pos k
    → k < max_int64
    → (pos (k + 1) == other) ≡ false
    → ((create true m).0 ≡ ok (pos (k + 1)))
      × (lookup (pos (k + 1)) m.ptys ≡ none)
      × (lookup (pos (k + 1)) (create true m).1.ptys ≡ some new_pty)
      × (lookup other (create true m).1.ptys ≡ lookup other m.ptys)
unfolding Below create
create_fresh m k other r e l ne =
    let (n, c, h) = Reach-Below r in
    let same : k ≡ n = ground (arith, e, c) in
    let next : add_one_int64 m.next_id ≡ pos (k + 1) = ap add_one_int64 e ∙ add_one_int64_pos k l in
    (
      ap ok next,
      h (k + 1) (omega (arith, same)),
      ap (λ x. lookup (pos (k + 1)) (insert x new_pty m.ptys)) next
          ∙ lookup-insert (pos (k + 1)) (pos (k + 1)) new_pty m.ptys
          ∙ rw (==_self (pos (k + 1))) refl,
      ap (λ x. lookup other (insert x new_pty m.ptys)) next
          ∙ lookup-insert (pos (k + 1)) other new_pty m.ptys
          ∙ rw ne refl,
    )
