-- ===== src/Exec/Control.antt =====
-- server/exec/handler.go: the requests that control a process: Signal, CloseInput, PtyCtl, and Close.
-- What the system answers to a signal or a terminal operation is an argument.
pub mod Closed
use flit_el.Prelude.{
  ℕ, Option, none, some, [], ◌∷◌, Text, codes, text_eq, nat_eq, ◌==◌, ◌||◌, if◌then◌else◌,
}
use flit_el.Prelude.GoMap.{GoMap, lookup}
use flit_el.Prelude.Results.{Result, ok, err}
use flit_el.Exec.{Process, Manager, close_input_of}

pub data Sig : Type 0 where
  sigkill sigint sigterm sighup : Sig

pub data ControlError : Type 0 where
  process_not_found unknown_signal not_a_pty unknown_op : ControlError
  system_error : Text → ControlError

-- The names of signals that Signal reads.
unfoldable pub signal_of : Text → Option Sig
signal_of s =
    if s == codes "kill"
    then some sigkill
    else if (s == codes "interrupt") || (s == codes "int")
    then some sigint
    else if (s == codes "term") || (s == codes "terminate")
    then some sigterm
    else if (s == codes "hup") || (s == codes "hangup")
    then some sighup
    else none

abbrev from_system : Result Text (Unit {0}) → Result ControlError (Unit {0})
from_system (ok u) = ok tt
from_system (err t) = err (system_error t)

send_signal : (Sig → Result Text (Unit {0})) → Option Sig → Result ControlError (Unit {0})
send_signal kill none = err unknown_signal
send_signal kill (some s) = from_system (kill s)

-- Signal, where `kill k s` is what the system answers to the signal `s` for the process `k`
unfoldable pub signal :
    (ℕ → Sig → Result Text (Unit {0})) → Text → Text → Manager → Result ControlError (Unit {0})
unfolding send_signal signal_of
signal kill id name m = elim (lookup id m.processes) [
  | none ↦ err process_not_found
  | some k ↦ send_signal (kill k) (signal_of name)
]

-- CloseInput
unfoldable pub close_input : Text → Manager → Result ControlError (Unit {0}) × Manager
unfolding close_input_of
close_input id m = elim (lookup id m.processes) [
  | none ↦ (err process_not_found, m)
  | some k ↦ (ok tt, close_input_of (some k) m)
]

-- The operations of PtyCtl, with the size of the window.
pub data PtyOp : Type 0 where
  resize : ℕ → ℕ → PtyOp
  tcooff tcoon : PtyOp

unfoldable pub op_of : Text → ℕ → ℕ → Option PtyOp
op_of op rows cols =
    if op == codes "resize"
    then some (resize rows cols)
    else if op == codes "TCOOFF"
    then some tcooff
    else if op == codes "TCOON"
    then some tcoon
    else none

run_op : (PtyOp → Result Text (Unit {0})) → Option PtyOp → Result ControlError (Unit {0})
run_op f none = err unknown_op
run_op f (some op) = from_system (f op)

control :
    (ℕ → PtyOp → Result Text (Unit {0}))
    → ℕ
    → Option PtyOp
    → Option Process
    → Result ControlError (Unit {0})
unfolding run_op
control f k op none = err process_not_found
control f k op (some p) = if p.is_pty then run_op (f k) op else err not_a_pty

-- PtyCtl, where `f k op` is what the system answers to `op` on the terminal of the process `k`
unfoldable pub pty_ctl :
    (ℕ → PtyOp → Result Text (Unit {0}))
    → Text
    → Text
    → ℕ
    → ℕ
    → Manager
    → Result ControlError (Unit {0})
unfolding control op_of
pty_ctl f id op rows cols m = elim (lookup id m.processes) [
  | none ↦ err process_not_found
  | some k ↦ control f k (op_of op rows cols) (lookup k m.store)
]

-- The inputs of the processes in the map are closed; they are cancelled by the system.
unfoldable pub close_each : GoMap Text ℕ → Manager → Manager
unfolding close_input_of
close_each [] m = m
close_each ((id, k) ∷ ps) m = close_each ps (close_input_of (some k) m)

-- Close
unfoldable pub close_all_processes : Manager → Manager
unfolding close_each
close_all_processes m = record (close_each m.processes m) { processes = [] }
