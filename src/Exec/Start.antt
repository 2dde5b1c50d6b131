-- ===== src/Exec/Start.antt =====
-- Start: server/exec/handler.go. What the system answers is an argument; the calls that start the
-- command, cancel its context and close its terminal are listed.
pub mod Outcomes
mod Tests
use flit_el.Prelude.{
  ℕ, ◌+◌, Bool, true, false, List, [], ◌∷◌, ◌++◌, Text, codes, is_empty, if◌then◌else◌,
}
use flit_el.Prelude.Results.{Result, ok, err}
use flit_el.FsHandler.Stat.{int_text}
use flit_el.Prelude.Int64.{ℤ, add_one_int64}
use flit_el.Exec.{Manager, begin_process, store_process}
use flit_el.Exec.Pty.{has_term, params_env, size_or}

-- StartParams
pub record StartParams : Type 0 where
  pub proc_id : Text
  pub cmd : Text
  pub args : List Text
  pub cwd : Text
  pub env : List (Text × Text)
  pub is_pty : Bool
  pub rows : ℕ
  pub cols : ℕ

-- What os/exec, pty and os return: cmd.Environ, pty.StartWithSize, ptsname, os.OpenFile, the three
-- pipes of the command, and cmd.Start.
pub record Answers : Type 0 where
  pub environ : List Text
  pub started_on_pty : Result Text (Unit {0})
  pub slave_name : Result Text Text
  pub slave_opened : Result Text (Unit {0})
  pub stdin_pipe : Result Text (Unit {0})
  pub stdout_pipe : Result Text (Unit {0})
  pub stderr_pipe : Result Text (Unit {0})
  pub started : Result Text (Unit {0})

-- The calls on the command and its terminal; `command` has the directory, empty for the server's
-- own, and the environment.
pub data Call : Type 0 where
  command : Text → List Text → Text → List Text → Call
  on_pty : ℕ → ℕ → Call
  master_closed cancelled : Call

-- fmt.Sprintf("proc-%d", …)
unfoldable pub numbered_id : ℤ → Text
unfolding int_text
numbered_id n = codes "proc-" ++ int_text n

-- Where the params have no id, the next of the counter, an int.
unfoldable pub proc_id_of : StartParams → Manager → Text × Manager
proc_id_of p m =
    if is_empty p.proc_id
    then (numbered_id (add_one_int64 m.next_id), record m { next_id = add_one_int64 m.next_id })
    else (p.proc_id, m)

-- The environment of the command; on a terminal TERM is set.
unfoldable pub start_env : StartParams → List Text → List Text
unfolding has_term params_env
start_env p environ =
    let env = environ ++ params_env p.env in
    if p.is_pty
    then if has_term env then env else env ++ (codes "TERM=xterm-256color" ∷ [])
    else env

-- An error's text after what the code says before it.
abbrev pub wrap : Text → Text → Text
wrap message t = message ++ (codes ": " ++ t)

slave_opened_as : Text → Result Text (Unit {0}) → Result Text (Unit {0}) × List Call
slave_opened_as path (ok u) = (ok tt, [])
slave_opened_as path (err t) =
    (err (wrap (codes "failed to open slave PTY " ++ path) t), master_closed ∷ cancelled ∷ [])

slave_named : Result Text Text → Result Text (Unit {0}) → Result Text (Unit {0}) × List Call
unfolding slave_opened_as
slave_named (ok path) opened = slave_opened_as path opened
slave_named (err t) opened =
    (err (wrap (codes "failed to get slave PTY name") t), master_closed ∷ cancelled ∷ [])

-- The branch with a terminal.
unfoldable pub start_on_pty : Answers → Result Text (Unit {0}) → Result Text (Unit {0}) × List Call
unfolding slave_named
start_on_pty a (ok u) = slave_named a.slave_name a.slave_opened
start_on_pty a (err t) = (err (wrap (codes "failed to start process with PTY") t), cancelled ∷ [])

-- A call whose error cancels the context and is returned.
unfoldable pub or_cancel :
    Text
    → Result Text (Unit {0})
    → Result Text (Unit {0}) × List Call
    → Result Text (Unit {0}) × List Call
or_cancel message (ok u) rest = rest
or_cancel message (err t) rest = (err (wrap message t), cancelled ∷ [])

-- The branch with pipes.
unfoldable pub start_on_pipes : Answers → Result Text (Unit {0}) × List Call
unfolding or_cancel
start_on_pipes a = or_cancel (codes "failed to create stdin pipe") a.stdin_pipe (
    or_cancel (codes "failed to create stdout pipe") a.stdout_pipe (
      or_cancel (codes "failed to create stderr pipe") a.stderr_pipe
        (or_cancel (codes "failed to start process") a.started (ok tt, []))))

after_calls : List Call → Result Text (Unit {0}) × List Call → Result Text (Unit {0}) × List Call
after_calls cs r = (r.0, cs ++ r.1)

-- The calls of Start, and whether the process runs.
unfoldable pub launch : Answers → StartParams → Result Text (Unit {0}) × List Call
unfolding after_calls
launch a p =
    let made = command p.cmd p.args p.cwd (start_env p a.environ) in
    let sized = on_pty (size_or 24 p.rows) (size_or 80 p.cols) in
    if p.is_pty
    then after_calls (made ∷ sized ∷ []) (start_on_pty a a.started_on_pty)
    else after_calls (made ∷ []) (start_on_pipes a)

-- The end of Start: the goroutines start, and the process is stored.
finish_start : Text → Bool → Result Text (Unit {0}) → Manager → Result Text Text × Manager
unfolding begin_process store_process
finish_start id is_pty (err t) m = (err t, m)
finish_start id is_pty (ok u) m = (ok id, store_process id m.next_key (begin_process id is_pty m))

-- Start, while none of the goroutines that it starts runs; the id, the calls and the manager.
unfoldable pub start : Answers → StartParams → Manager → Result Text Text × List Call × Manager
unfolding finish_start
start a p m =
    let named = proc_id_of p m in
    let r = launch a p in
    let done = finish_start named.0 p.is_pty r.0 named.1 in (done.0, r.1, done.1)
