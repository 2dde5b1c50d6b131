-- ===== src/Exec/Pty.antt =====
-- server/exec/pty.go: the manager of terminal sessions. Starting a command on a terminal, its output
-- and its exit are the system's; what they return is an argument. A session is named by the number
-- in its id, an int.
pub mod Fresh
mod Tests
use flit_el.Prelude.{
  ℕ, ◌+◌, ◌≡◌, Bool, true, false, Option, none, some, List, [], ◌∷◌, ◌++◌, Text, Bytes, codes, take,
  length, text_eq, nat_eq, ◌==◌, ◌&&◌, nat_beq, leb, if◌then◌else◌,
}
use flit_el.Prelude.GoMap.{GoMap, lookup, insert, erase}
use flit_el.Prelude.Int64.{ℤ, pos, negsuc, int_eq, add_one_int64}
use flit_el.Prelude.Results.{Result, ok, err}
use flit_el.Exec.Control.{Sig, signal_of}

-- PTY; `written` is what Input has written to its terminal.
pub record Pty : Type 0 where
  pub written : List Bytes
  pub closed : Bool
  pub killed : Bool

-- PTYManager, with the outputs and the exits that it has reported, and the objects of sessions: a
-- goroutine keeps a session that the map has no more.
pub record PtyManager : Type 0 where
  pub ptys : GoMap ℤ Pty
  pub next_id : ℤ
  pub outputs : List (ℤ × Bytes)
  pub exits : List (ℤ × ℤ)

pub data PtyError : Type 0 where
  start_failed pty_not_found pty_closed unknown_signal_name : PtyError
  pty_system_error : Text → PtyError

-- NewPTYManager
unfoldable pub new_pty_manager : PtyManager
new_pty_manager = record { ptys = []; next_id = pos 0; outputs = []; exits = [] }

-- `len(e) >= 5 && e[:5] == "TERM="`
abbrev is_term : Text → Bool
is_term e = leb 5 (length e) && (take 5 e == codes "TERM=")

unfoldable pub has_term : List Text → Bool
has_term [] = false
has_term (e ∷ es) = let rest = has_term es in if is_term e then true else rest

unfoldable pub params_env : List (Text × Text) → List Text
params_env [] = []
params_env ((k, v) ∷ kvs) = (k ++ (codes "=" ++ v)) ∷ params_env kvs

-- The environment of the command, and TERM where it is not set.
unfoldable pub pty_env : List Text → List (Text × Text) → List Text
unfolding has_term params_env
pty_env environ given =
    let env = environ ++ params_env given in
    if has_term env then env else env ++ (codes "TERM=xterm-256color" ∷ [])

abbrev pub size_or : ℕ → ℕ → ℕ
size_or default n = if nat_beq n 0 then default else n

-- The size of the window.
unfoldable pub win_size : ℕ → ℕ → ℕ × ℕ
win_size rows cols = (size_or 24 rows, size_or 80 cols)

abbrev pub new_pty : Pty
new_pty = record { written = []; closed = false; killed = false }

-- Create, where `started` says whether the command has started
unfoldable pub create : Bool → PtyManager → Result PtyError ℤ × PtyManager
create false m = (err start_failed, m)
create true m = (
  ok (add_one_int64 m.next_id),
  record m {
    next_id = add_one_int64 m.next_id;
    ptys = insert (add_one_int64 m.next_id) new_pty m.ptys;
  },
)

-- One read of readOutput
unfoldable pub read_output : ℤ → Bytes → PtyManager → PtyManager
read_output id [] m = m
read_output id (b ∷ bytes) m = record m { outputs = m.outputs ++ ((id, b ∷ bytes) ∷ []) }

-- What cmd.Wait returns: nil, an ExitError with or without a WaitStatus, or another error.
pub data WaitResult : Type 0 where
  exited_ok : WaitResult
  exit_status : ℤ → WaitResult
  exit_error other_error : WaitResult

unfoldable pub exit_code : WaitResult → ℤ
exit_code exited_ok = pos 0
exit_code (exit_status c) = c
exit_code exit_error = pos 1
exit_code other_error = negsuc 0

-- waitForExit after cmd.Wait
unfoldable pub pty_exited : ℤ → WaitResult → PtyManager → PtyManager
unfolding exit_code
pty_exited id r m = record m { ptys = erase id m.ptys; exits = m.exits ++ ((id, exit_code r) ∷ []) }

input_pty :
    ℤ
    → Bytes
    → Result Text (Unit {0})
    → Option Pty
    → PtyManager
    → Result PtyError (Unit {0}) × PtyManager
input_pty id bytes answer none m = (err pty_not_found, m)
input_pty id bytes (err t) (some p) m =
    if p.closed then (err pty_closed, m) else (err (pty_system_error t), m)
input_pty id bytes (ok u) (some p) m = if p.closed then (err pty_closed, m) else (
  ok tt,
  record m { ptys = insert id (record p { written = p.written ++ (bytes ∷ []) }) m.ptys },
)

-- Input, where `answer` is the result of the write to the terminal
unfoldable pub pty_input :
    Result Text (Unit {0}) → ℤ → Bytes → PtyManager → Result PtyError (Unit {0}) × PtyManager
unfolding input_pty
pty_input answer id bytes m = input_pty id bytes answer (lookup id m.ptys) m

abbrev pty_answer : Result Text (Unit {0}) → Result PtyError (Unit {0})
pty_answer (ok u) = ok tt
pty_answer (err t) = err (pty_system_error t)

resize_open : Result Text (Unit {0}) → Option Pty → Result PtyError (Unit {0})
resize_open answer none = err pty_not_found
resize_open answer (some p) = if p.closed then err pty_closed else pty_answer answer

-- Resize, where `answer` is the result of setting the size
unfoldable pub pty_resize : Result Text (Unit {0}) → ℤ → PtyManager → Result PtyError (Unit {0})
unfolding resize_open
pty_resize answer id m = resize_open answer (lookup id m.ptys)

signal_pty : (Sig → Result Text (Unit {0})) → Option Sig → Result PtyError (Unit {0})
signal_pty kill none = err unknown_signal_name
signal_pty kill (some s) = pty_answer (kill s)

-- Signal, where `kill s` is what the system answers
unfoldable pub pty_signal :
    (Sig → Result Text (Unit {0})) → ℤ → Text → PtyManager → Result PtyError (Unit {0})
unfolding signal_pty signal_of
pty_signal kill id name m = elim (lookup id m.ptys) [
  | none ↦ err pty_not_found
  | some p ↦ signal_pty kill (signal_of name)
]

-- Close: each session that is open is killed and closed, and none is left in the map.
unfoldable pub close_open : Pty → Pty
close_open p = if p.closed then p else record p { closed = true; killed = true }

-- The sessions that Close has closed, and the manager after it.
unfoldable pub pty_close_all : PtyManager → GoMap ℤ Pty × PtyManager
unfolding close_open
pty_close_all m = (closed_of m.ptys, record m { ptys = [] })
  where
    closed_of : GoMap ℤ Pty → GoMap ℤ Pty
    closed_of [] = []
    closed_of ((id, p) ∷ ps) = (id, close_open p) ∷ closed_of ps
