-- ===== src/Command/Tests.antt =====
-- A server that is started on 127.0.0.1, and one that is idle: server/cmd_server.go.
use flit_el.Prelude.{
  ◌≡◌, refl, arith, true, false, none, some, [], ◌∷◌, ◌++◌, codes, text_beq, text_eq, ltb,
  if◌then◌else◌,
}
use flit_el.Prelude.Int64.{pos}
use flit_el.FsHandler.Stat.{int_text, digits}
use flit_el.Handlers.Lifetime.{Server, new, idle_tick, shutdown}
use flit_el.Command.{
  Flags, Net, to_stderr, info, pty_bridge, command_of, run_server, on_tcp, log_setup, listen_tcp,
  timeout_of, address_of, level_of,
}
use flit_el.Command.Listens.{colons, begins_bracket, NeedsBrackets, ParsesBare, listens_on_loopback}
use flit_el.Command.Accept.{
  accepted, failed, ticks, shuts, accept_loop, accepts, waiting, returned,
  idle_shutdown_keeps_accepting, panicked,
}

-- An address with one colon at most is listened on.
abbrev local : Net
local = record {
  loopback = λ host. if begins_bracket host then none else some true;
  listens = λ address. if ltb 1 (colons address) then false else true;
}

local-NeedsBrackets : NeedsBrackets local
local-NeedsBrackets address bare h = ground arith

local-ParsesBare : ParsesBare local
local-ParsesBare host h = rw h refl

abbrev flags : Flags
flags = record {
  port = pos 9999;
  host = codes "127.0.0.1";
  idle_timeout = 5;
  verbose = false;
  quiet = false;
  stdio = false;
  log_file = [];
}

bridge_asked : command_of (codes "pty-bridge" ∷ codes "ssh" ∷ []) ≡ pty_bridge (codes "ssh" ∷ [])
unfolding command_of text_eq text_beq
bridge_asked = refl

started :
    run_server local true 0 flags ≡ on_tcp (codes "127.0.0.1:9999") (new 5 0) (to_stderr info false)
unfolding run_server log_setup listen_tcp timeout_of address_of int_text level_of digits
started = refl

listens_on_loopback_example :
    (flags.stdio ≡ false)
    × (local.loopback flags.host ≡ some true)
    × (codes "127.0.0.1:9999" ≡ address_of flags)
    × (new 5 0 ≡ new 5 0)
    × (colons flags.host ≡ 0)
listens_on_loopback_example =
    listens_on_loopback local true 0 flags (codes "127.0.0.1:9999") (new 5 0) (to_stderr info false)
      local-NeedsBrackets local-ParsesBare started

abbrev idle : Server
idle = record (new 5 0) { done = true; closed = [] }

idle_ends : idle_tick 9 (new 5 0) ≡ some (false, idle)
unfolding idle_tick shutdown new
idle_ends = refl

-- Shutdown after that panics.
shut_down_twice : (accept_loop (ticks 9 ∷ shuts ∷ []) (new 5 0) []).0 ≡ panicked
unfolding accept_loop idle_tick shutdown new
shut_down_twice = refl

idle_shutdown_keeps_accepting_example :
    (idle.done ≡ true)
    × (accept_loop (ticks 9 ∷ accepts (7 ∷ 8 ∷ [])) (new 5 0) [] ≡ (waiting, idle, 7 ∷ 8 ∷ []))
    × (accept_loop (ticks 9 ∷ (accepts (7 ∷ 8 ∷ []) ++ failed ∷ accepted 1 ∷ [])) (new 5 0) []
        ≡ (returned, idle, 7 ∷ 8 ∷ []))
idle_shutdown_keeps_accepting_example =
    idle_shutdown_keeps_accepting 9 (new 5 0) idle (7 ∷ 8 ∷ []) [] (accepted 1 ∷ []) idle_ends
