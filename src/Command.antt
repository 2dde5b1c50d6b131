-- ===== src/Command.antt =====
-- The command line: server/main.go, and runServer of server/cmd_server.go up to its listener. Packages
-- flag, net and os are arguments; the crash log and the dump of goroutines are left out.
pub mod Listens
pub mod Accept
mod Tests
use flit_el.Prelude.{
  ℕ, ◌+◌, ◌≡◌, Bool, true, false, Option, none, some, List, [], ◌∷◌, ◌++◌, Text, codes, text_eq,
  is_empty, ◌==◌, ◌||◌, if◌then◌else◌,
}
use flit_el.Prelude.Int64.{ℤ, pos, negsuc}
use flit_el.FsHandler.Stat.{int_text}
use flit_el.Handlers.Lifetime as lifetime
use flit_el.Handlers.Lifetime.{new}

-- What main does with the arguments after the program's name.
pub data Command : Type 0 where
  missing version help : Command
  server pty_bridge : List Text → Command
  unknown : Text → Command

named : Text → List Text → Command
named name args =
    if name == codes "server"
    then server args
    else if name == codes "pty-bridge"
    then pty_bridge args
    else if name == codes "version"
    then version
    else if (name == codes "-h") || ((name == codes "--help") || (name == codes "help"))
    then help
    else unknown name

-- The switch of main
unfoldable pub command_of : List Text → Command
unfolding named
command_of [] = missing
command_of (name ∷ args) = named name args

-- The flags of runServer; a negative timeout is like 0.
pub record Flags : Type 0 where
  pub port : ℤ
  pub host : Text
  pub idle_timeout : ℕ
  pub verbose : Bool
  pub quiet : Bool
  pub stdio : Bool
  pub log_file : Text

pub data Level : Type 0 where
  debug info error : Level

-- Where the logs go, with their least level; `to_stderr` has whether lines have their source.
pub data Logs : Type 0 where
  to_file : Text → Level → Logs
  discarded : Logs
  to_stderr : Level → Bool → Logs

unfoldable pub level_of : Flags → Level
level_of f = if f.quiet then error else if f.verbose then debug else info

-- The logging; none where os.Create returns an error.
unfoldable pub log_setup : Bool → Flags → Option Logs
unfolding level_of
log_setup created f =
    if is_empty f.log_file
    then some (if f.stdio then discarded else to_stderr (level_of f) f.verbose)
    else if created
    then some (to_file f.log_file debug)
    else none

-- net.ParseIP with IsLoopback, and whether net.Listen listens on an address
pub record Net : Type 0 where
  pub loopback : Text → Option Bool
  pub listens : Text → Bool

pub data Startup : Type 0 where
  fatal : Text → Startup
  on_stdio : lifetime.Server → Logs → Startup
  on_tcp : Text → lifetime.Server → Logs → Startup

-- fmt.Sprintf("%s:%d", …)
unfoldable pub address_of : Flags → Text
unfolding int_text
address_of f = f.host ++ (58 ∷ int_text f.port)

is_true : Option Bool → Bool
is_true none = false
is_true (some b) = b

host_refused : Text → Text
host_refused host =
    codes "Security: For TCP mode, host must be a loopback address (e.g., 127.0.0.1 or ::1), not '"
    ++ (host ++ codes "'")

-- The TCP mode, up to the listener
unfoldable pub listen_tcp : Net → lifetime.Server → Logs → Flags → Startup
unfolding is_true address_of host_refused
listen_tcp net srv logs f =
    if is_true (net.loopback f.host)
    then if net.listens (address_of f)
      then on_tcp (address_of f) srv logs
      else fatal (codes "Failed to listen on " ++ address_of f)
    else fatal (host_refused f.host)

-- The idle timeout of the server, which has none on standard input and output
unfoldable pub timeout_of : Flags → ℕ
timeout_of f = if f.stdio then 0 else f.idle_timeout

after_logs : Net → ℕ → Flags → Option Logs → Startup
unfolding listen_tcp timeout_of
after_logs net now f none = fatal (codes "Failed to open log file " ++ f.log_file)
after_logs net now f (some logs) =
    if f.stdio
    then on_stdio (new (timeout_of f) now) logs
    else listen_tcp net (new (timeout_of f) now) logs f

-- runServer at the time `now`, up to HandleStdio or the loop that accepts connections
unfoldable pub run_server : Net → Bool → ℕ → Flags → Startup
unfolding after_logs log_setup
run_server net created now f = after_logs net now f (log_setup created f)
