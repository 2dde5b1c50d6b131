-- ===== src/Exec.antt =====
-- server/exec/handler.go: the manager's processes and their input.
-- A process is an object in `store`: its goroutines keep it whether it is in `processes` or not.
-- Starting a command, its pipes and its exit are the system's; what they return is an argument.
pub mod Input
pub mod Control
pub mod Pty
pub mod Start
pub mod Output
mod Tests
use flit_el.Prelude.{
  ℕ, ◌+◌, ◌≡◌, Bool, true, false, Option, none, some, List, [], ◌∷◌, ◌++◌, Bytes, Text, text_eq,
  nat_eq, length, ltb, ◌==◌, if◌then◌else◌,
}
use flit_el.Prelude.GoMap.{GoMap, lookup, insert, erase}
use flit_el.Prelude.Int64.{ℤ, pos}

-- Process; `input` is what `inputCh` holds, `channel_closed` whether it is closed, `written` what
-- inputWriter has written, `writer_done` whether inputWriter has returned, and `closers` how many
-- goroutines are in closeInputCh between its two parts.
pub record Process : Type 0 where
  pub id : Text
  pub is_pty : Bool
  pub input : List Bytes
  pub input_closed : Bool
  pub channel_closed : Bool
  pub written : List Bytes
  pub stdin_closed : Bool
  pub writer_done : Bool
  pub closers : ℕ

-- Manager, with the exits that it has reported
pub record Manager : Type 0 where
  pub processes : GoMap Text ℕ
  pub store : GoMap ℕ Process
  pub next_key : ℕ
  pub next_id : ℤ
  pub exits : List (Text × ℤ)

pub data InputResult : Type 0 where
  queued ignored not_found buffer_full panics : InputResult

abbrev pub input_capacity : ℕ
input_capacity = 1024

-- NewManager
unfoldable pub new_manager : Manager
new_manager = record { processes = []; store = []; next_key = 0; next_id = pos 0; exits = [] }

abbrev pub new_process : Text → Bool → Process
new_process id is_pty = record {
  id = id;
  is_pty = is_pty;
  input = [];
  input_closed = false;
  channel_closed = false;
  written = [];
  stdin_closed = false;
  writer_done = false;
  closers = 0;
}

-- Start up to the start of the goroutines
unfoldable pub begin_process : Text → Bool → Manager → Manager
begin_process id is_pty m = record m {
  store = insert m.next_key (new_process id is_pty) m.store;
  next_key = m.next_key + 1;
}

-- The end of Start: `m.processes[procID] = proc`
unfoldable pub store_process : Text → ℕ → Manager → Manager
store_process id k m = record m { processes = insert id k m.processes }

-- A change of a process through a pointer to it
unfoldable pub update : ℕ → (Process → Process) → Manager → Manager
update k f m = elim (lookup k m.store) [
  | none ↦ m
  | some p ↦ record m { store = insert k (f p) m.store }
]

unfoldable pub enqueue : Bytes → Process → Process
enqueue bytes p = record p { input = p.input ++ bytes ∷ [] }

-- What Input does under the process's lock; a send on a closed channel panics.
offer : ℕ → Bytes → Option Process → Manager → InputResult × Manager
unfolding update enqueue
offer k bytes none m = (not_found, m)
offer k bytes (some p) m =
    if p.input_closed
    then (ignored, m)
    else if p.channel_closed
    then (panics, m)
    else if ltb (length p.input) input_capacity
    then (queued, update k (enqueue bytes) m)
    else (buffer_full, m)

input_to : Bytes → Option ℕ → Manager → InputResult × Manager
unfolding offer
input_to bytes none m = (not_found, m)
input_to bytes (some k) m = offer k bytes (lookup k m.store) m

-- Input
unfoldable pub input : Text → Bytes → Manager → InputResult × Manager
unfolding input_to
input id bytes m = input_to bytes (lookup id m.processes) m

-- closeInputCh, its two parts
unfoldable pub mark_closed : Process → Process
mark_closed p = record p { input_closed = true }

unfoldable pub close_channel : Process → Process
close_channel p = record p { channel_closed = true }

take_input : Bool → Process → List Bytes → Process
take_input ok p [] =
    if p.channel_closed
    then record p { stdin_closed = (if p.is_pty then p.stdin_closed else true); writer_done = true }
    else p
take_input true p (bytes ∷ rest) = record p { input = rest; written = p.written ++ bytes ∷ [] }
take_input false p (bytes ∷ rest) = record p { input = rest; writer_done = true }

-- One round of inputWriter; `ok` says whether writeInput returns no error
unfoldable pub write_input : Bool → Process → Process
unfolding take_input
write_input ok p = if p.writer_done then p else take_input ok p p.input

-- The end of waitForExitWithWg: the process is deleted and its exit is reported.
unfoldable pub report_exit : Text → ℤ → Manager → Manager
report_exit id code m = record m {
  processes = erase id m.processes;
  exits = m.exits ++ (id, code) ∷ [];
}

close_input_of : Option ℕ → Manager → Manager
unfolding update mark_closed close_channel
close_input_of none m = m
close_input_of (some k) m = update k (λ p. close_channel (mark_closed p)) m

-- waitForExitWithWg after cmd.Wait, while nothing else runs
unfoldable pub wait_for_exit : Text → ℤ → Manager → Manager
unfolding close_input_of report_exit
wait_for_exit id code m = report_exit id code (close_input_of (lookup id m.processes) m)
