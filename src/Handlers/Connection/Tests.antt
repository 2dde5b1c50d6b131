-- ===== src/Handlers/Connection/Tests.antt =====
-- A connection whose client starts a process and connects a tunnel: server/server/jsonrpc.go.
use flit_el.Prelude.{
  ◌≡◌, ◌≢◌, refl, true, none, some, [], ◌∷◌, ◌++◌, Bytes, Text, codes, ◌⊎◌, text_eq, text_beq,
  nat_eq,
}
use flit_el.Prelude.GoMap.{lookup, insert, erase}
use flit_el.Prelude.Results.{Result, ok, err}
use flit_el.Prelude.Int64.{pos, add_one_int64}
use flit_el.Watcher.PathSet.{path_set}
use flit_el.FsHandler.Memory.{memory, Disk}
use flit_el.Flitrpc.Tiny.{tiny}
use flit_el.Flitrpc.Frame.{FrameError, read_frame, read_full, get_uint32, put_uint32, frame_header}
use flit_el.Flitrpc.Frame.RoundTrip.{frame_bytes}
use flit_el.Flitrpc.Server.{Server as Flitrpc_server, handle, handle_request, new_server}
use flit_el.Flitrpc.Server.Loop.{returned}
use flit_el.Handlers.Lifetime.{Server, new, connection_opened}
use flit_el.Handlers.Init.{Host}
use flit_el.Handlers.App.{HereApp, touched}
use flit_el.Handlers.Protocol.{Decoders, Encoders, System}
use flit_el.Handlers.Register.{
  register_handlers, active_methods, process_methods, host_methods, tunnel_methods,
}
use flit_el.Handlers.FileMethods.{file_methods, session_methods}
use flit_el.Handlers.Answers.{H, handle_typed, with_tunnels, with_procs}
use flit_el.Exec.Start.{start, launch, start_on_pipes, proc_id_of, numbered_id}
use flit_el.Handlers.Register.Touches.{registered_note_activity}
use flit_el.Handlers.Connection.{new_app, handle_connection, serve_session, set_up}
use flit_el.Handlers.Connection.Closed.{served, SessionClosed, connection_released}
use flit_el.FsHandler.Stat.{digits}
use flit_el.Exec as exec
use flit_el.Tunnel as tunnel

abbrev no_params : {A : Type 0} → Bytes → Result Text A
no_params raw = err (codes "no params")

-- Params that are never decoded, values without content, and a system where each call succeeds.
abbrev decoders : Decoders
decoders = record {
  text = no_params;
  texts = no_params;
  mkdir = no_params;
  delete = no_params;
  rename = no_params;
  copy = no_params;
  chmod = no_params;
  touch = no_params;
  copy_dir = no_params;
  write = no_params;
  start = no_params;
  signal = no_params;
  pty_ctl = no_params;
  connect = no_params;
  listen = no_params;
}

abbrev encoders : Encoders Unit
encoders = record {
  done = tt;
  named = λ k t. tt;
  stat = λ x. tt;
  read = λ x. tt;
  count = λ x. tt;
  flag = λ x. tt;
  copied = λ x. tt;
  written = λ x. tt;
  info = λ x. tt;
  started = λ x. tt;
  listening = λ x p. tt;
  sys_info = λ x. tt;
  initial = λ x. tt;
}

abbrev system : System
system = record {
  answers = λ p. record {
    environ = [];
    started_on_pty = ok tt;
    slave_name = ok [];
    slave_opened = ok tt;
    stdin_pipe = ok tt;
    stdout_pipe = ok tt;
    stderr_pipe = ok tt;
    started = ok tt;
  };
  kill = λ pid s. ok tt;
  on_terminal = λ k op. ok tt;
  bound_port = λ p. some 4000;
  dialled = λ p. true;
  visits = λ t. [];
}

abbrev host : Host
host = record {
  goos = [];
  goarch = [];
  pid = 1;
  user_home_dir = none;
  host_name = none;
  current_user = none;
  path_env = [];
}

abbrev disk : Disk
disk = record { files = []; clock = record { sec = pos 0; nsec = 0 } }

abbrev start_server : Server
start_server = new 0 0

-- The request 7, exec/start, and the notification tunnel/connect, both with empty params.
abbrev sent : Bytes
sent =
    frame_bytes (0 ∷ 1 ∷ 0 ∷ 7 ∷ codes "exec/start") []
    ++ frame_bytes (0 ∷ 3 ∷ 1 ∷ 1 ∷ codes "tunnel/connect") []

abbrev end_state : HereApp path_set memory
end_state =
    (served path_set memory tiny decoders encoders system 5 none sent start_server 9 host
      disk).1.app

-- What Serve leaves: the process 0 and the connection 0 of a tunnel.
served_leaves :
    (m : exec.Manager) × (p : exec.Process) × (t : tunnel.Manager) × (x : tunnel.Connection)
    × (end_state.procs ≡ some m)
    × (lookup (codes "proc-1") m.processes ≡ some 0)
    × (lookup 0 m.store ≡ some p)
    × (end_state.tunnels ≡ some t)
    × (lookup [] t.conns ≡ some 0)
    × (lookup 0 t.store ≡ some x)
unfolding serve_session set_up new_app connection_opened lookup insert erase text_eq text_beq
    read_frame read_full get_uint32 put_uint32 frame_header handle handle_request register_handlers
    digits new active_methods file_methods session_methods process_methods host_methods
    tunnel_methods handle_typed touched with_tunnels with_procs new_server tunnel.connect
    tunnel.new_manager start launch start_on_pipes proc_id_of numbered_id exec.new_manager
    add_one_int64
served_leaves = (_, _, _, _, refl, refl, refl, refl, refl, refl)

connection_released_example :
    (let r =
        handle_connection path_set memory tiny decoders encoders system 5 none sent start_server 9
          host disk in
      ((err : FrameError) × (r.0 ≡ returned err))
      × (lookup 5 r.2.server.connections ≡ none)
      × SessionClosed path_set memory end_state r.2)
connection_released_example =
    connection_released path_set memory tiny decoders encoders system 5 none sent start_server 9
      host disk

abbrev registered : Flitrpc_server Unit (HereApp path_set memory)
registered =
    register_handlers path_set memory decoders encoders system tiny
      (new_server tiny (record { written = []; outcomes = [] }) end_state)

start_registered :
    (h : H path_set memory decoders encoders system) × (lookup
        (codes "exec/start")
        registered.handlers
      ≡ some h)
unfolding register_handlers active_methods file_methods session_methods process_methods host_methods
    tunnel_methods new_server handle lookup insert text_eq text_beq
start_registered = (_, refl)

start_is_not_shutdown : codes "exec/start" ≢ codes "shutdown"
start_is_not_shutdown h = cc

registered_note_activity_example :
    ((start_registered.0 [] [] end_state).1.server.last_activity ≡ end_state.clock)
    ⊎ (((t : Text) × ((start_registered.0 [] [] end_state).0 ≡ err (codes "invalid params: " ++ t)))
        × ((start_registered.0 [] [] end_state).1 ≡ end_state))
unfolding new_server
registered_note_activity_example =
    registered_note_activity path_set memory decoders encoders system tiny
      (new_server tiny (record { written = []; outcomes = [] }) end_state) (codes "exec/start")
      start_registered.0 [] [] end_state refl start_registered.1 start_is_not_shutdown
