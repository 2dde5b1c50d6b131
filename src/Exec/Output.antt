-- ===== src/Exec/Output.antt =====
-- readOutput, and the wait group of Start that waitForExitWithWg waits for: server/exec/handler.go.
-- The reads of a stream are the system's.
mod Tests
use flit_el.Prelude.{
  ℕ, suc, ◌+◌, ◌-◌, ◌≡◌, refl, sym, ◌∙◌, ap, ◌⊎◌, inl, inr, Bool, true, false, Option, none, some,
  List, [], ◌∷◌, ◌++◌, Text, Bytes, codes, text_eq, arith, ◌==◌, if◌then◌else◌, Bool-cases, length,
}
use flit_el.Prelude.Int64.{ℤ}

-- What onOutput and onExit are called with.
pub data Notice : Type 0 where
  output : Text → Bytes → Notice
  exited : ℤ → Notice

-- Where the goroutine of a reader is: in readOutput, before wg.Done, or at its end.
pub data Phase : Type 0 where
  reading stopped gone : Phase

-- A process from the start of its goroutines: the streams with their readers, the counter of the wait
-- group, whether waitForExitWithWg has ended, and what has been sent.
pub record Streams : Type 0 where
  pub readers : List (Text × Phase)
  pub wg : ℕ
  pub ended : Bool
  pub notices : List Notice

-- The readers that Start makes, for a terminal after wg.Add(1), and for pipes after wg.Add(2).
unfoldable pub begin_reading : Bool → Streams
begin_reading true = record {
  readers = (codes "stdout", reading) ∷ [];
  wg = 1;
  ended = false;
  notices = [];
}
begin_reading false = record {
  readers = (codes "stdout", reading) ∷ (codes "stderr", reading) ∷ [];
  wg = 2;
  ended = false;
  notices = [];
}

unfoldable pub phase_of : Text → List (Text × Phase) → Option Phase
phase_of x [] = none
phase_of x ((y, p) ∷ rs) = let rest = phase_of x rs in if y == x then some p else rest

unfoldable pub set_phase : Text → Phase → List (Text × Phase) → List (Text × Phase)
set_phase x q [] = []
set_phase x q ((y, p) ∷ rs) =
    let rest = set_phase x q rs in if y == x then (y, q) ∷ rs else (y, p) ∷ rest

send_output : Text → Bytes → List Notice → List Notice
send_output stream [] ns = ns
send_output stream (b ∷ bytes) ns = ns ++ output stream (b ∷ bytes) ∷ []

-- One round of readOutput, where Read returns `bytes` and `failed` says whether an error with them;
-- then readOutput returns.
unfoldable pub read_round : Text → Bytes → Bool → Streams → Streams
unfolding send_output set_phase
read_round stream bytes failed s = record s {
  notices = send_output stream bytes s.notices;
  readers = if failed then set_phase stream stopped s.readers else s.readers;
}

-- wg.Done, after readOutput
unfoldable pub reader_done : Text → Streams → Streams
unfolding set_phase
reader_done stream s = record s { readers = set_phase stream gone s.readers; wg = s.wg - 1 }

-- The end of waitForExitWithWg, after wg.Wait
unfoldable pub send_exit : ℤ → Streams → Streams
send_exit code s = record s { ended = true; notices = s.notices ++ exited code ∷ [] }

-- What the goroutines of the process do: a reader reads, a reader that has stopped calls wg.Done, and
-- the one goroutine that waits goes on where the counter is 0.
pub data Step : Streams → Streams → Type 0 where
  reads :
      (s : Streams) (stream : Text) (bytes : Bytes) (failed : Bool)
      → phase_of stream s.readers ≡ some reading
      → Step s (read_round stream bytes failed s)
  counts_down :
      (s : Streams) (stream : Text)
      → phase_of stream s.readers ≡ some stopped
      → Step s (reader_done stream s)
  exits : (s : Streams) (code : ℤ) → s.wg ≡ 0 → s.ended ≡ false → Step s (send_exit code s)

pub data Reach (s : Streams) : Streams → Type 0 where
  here : Reach s s
  next : {t u : Streams} → Reach s t → Step t u → Reach s u

abbrev pub AreOutputs : List Notice → Type 0
AreOutputs [] = Unit
AreOutputs (output stream bytes ∷ ns) = AreOutputs ns
AreOutputs (exited code ∷ ns) = ⊥

-- How many readers have not called wg.Done.
abbrev pub weight : Phase → ℕ
weight reading = 1
weight stopped = 1
weight gone = 0

abbrev pub running : List (Text × Phase) → ℕ
running [] = 0
running ((x, p) ∷ rs) = weight p + running rs

-- No exit has been sent, or it is the last of what has been sent, and no reader runs.
abbrev pub ExitIsLast : Streams → Type 0
ExitIsLast s =
    ((s.ended ≡ false) × AreOutputs s.notices)
    ⊎ ((running s.readers ≡ 0)
        × (s.ended ≡ true)
        × ((outputs : List Notice) × (code : ℤ) × AreOutputs outputs
            × (s.notices ≡ outputs ++ exited code ∷ [])))

-- The counter is the number of the readers that have not called wg.Done.
abbrev IsCounted : Streams → Type 0
IsCounted s = s.wg ≡ running s.readers

running-set_phase :
    (x : Text) (p q : Phase) (rs : List (Text × Phase))
    → phase_of x rs ≡ some p
    → running (set_phase x q rs) + weight p ≡ running rs + weight q
unfolding phase_of set_phase
running-set_phase x p q [] e = cc
running-set_phase x p q ((y, p') ∷ rs) e = elim (Bool-cases (y == x)) [
  | inl t ↦
      let found : some p' ≡ some p = sym (ap (λ b. if b then some p' else phase_of x rs) t) ∙ e in
      let same : p' ≡ p = cc in rw t (omega (arith, ap weight same))
  | inr t ↦
      let later = sym (ap (λ b. if b then some p' else phase_of x rs) t) ∙ e in
      rw t (omega (arith, running-set_phase x p q rs later))
]

-- A reader that runs is counted.
weight-le :
    (x : Text) (p : Phase) (rs : List (Text × Phase))
    → phase_of x rs ≡ some p
    → weight p ≡ 1
    → running rs ≡ 0
    → ⊥
weight-le x p rs e w z = omega (arith, running-set_phase x p gone rs e, w, z)

send_output-AreOutputs :
    (stream : Text) (bytes : Bytes) (ns : List Notice)
    → AreOutputs ns
    → AreOutputs (send_output stream bytes ns)
unfolding send_output
send_output-AreOutputs stream [] ns h = h
send_output-AreOutputs stream (b ∷ bytes) [] h = tt
send_output-AreOutputs stream (b ∷ bytes) (output x y ∷ ns) h =
    send_output-AreOutputs stream (b ∷ bytes) ns h
send_output-AreOutputs stream (b ∷ bytes) (exited c ∷ ns) h = absurd h

Step-IsCounted : {s t : Streams} → Step s t → IsCounted s → IsCounted t
unfolding read_round reader_done send_exit
Step-IsCounted (reads s stream bytes true r) h =
    omega (arith, h, running-set_phase stream reading stopped s.readers r)
Step-IsCounted (reads s stream bytes false r) h = h
Step-IsCounted (counts_down s stream r) h =
    omega (arith, h, running-set_phase stream stopped gone s.readers r)
Step-IsCounted (exits s code z e) h = h

Step-ExitIsLast : {s t : Streams} → Step s t → IsCounted s → ExitIsLast s → ExitIsLast t
unfolding read_round reader_done send_exit
Step-ExitIsLast (reads s stream bytes failed r) c (inl (e, h)) =
    inl (e, send_output-AreOutputs stream bytes s.notices h)
Step-ExitIsLast (reads s stream bytes failed r) c (inr (z, e, h)) =
    absurd (weight-le stream reading s.readers r refl z)
Step-ExitIsLast (counts_down s stream r) c (inl h) = inl h
Step-ExitIsLast (counts_down s stream r) c (inr (z, e, h)) =
    absurd (weight-le stream stopped s.readers r refl z)
Step-ExitIsLast (exits s code w e) c (inl (e', h)) =
    inr (sym c ∙ w, refl, (s.notices, code, h, refl))
Step-ExitIsLast (exits s code w e) c (inr (z, e', h)) = cc

begin-IsCounted : (is_pty : Bool) → IsCounted (begin_reading is_pty)
unfolding begin_reading
begin-IsCounted true = refl
begin-IsCounted false = refl

begin-ExitIsLast : (is_pty : Bool) → ExitIsLast (begin_reading is_pty)
unfolding begin_reading
begin-ExitIsLast true = inl (refl, tt)
begin-ExitIsLast false = inl (refl, tt)

Reach-IsCounted : (is_pty : Bool) {s : Streams} → Reach (begin_reading is_pty) s → IsCounted s
Reach-IsCounted is_pty here = begin-IsCounted is_pty
Reach-IsCounted is_pty (next r st) = Step-IsCounted st (Reach-IsCounted is_pty r)

-- In whatever order the readers of a process and the goroutine that waits for it run, the exit is sent
-- once at most, and after all output.
pub exit_after_output :
    (is_pty : Bool) {s : Streams} → Reach (begin_reading is_pty) s → ExitIsLast s
exit_after_output is_pty here = begin-ExitIsLast is_pty
exit_after_output is_pty (next r st) =
    Step-ExitIsLast st (Reach-IsCounted is_pty r) (exit_after_output is_pty r)
