-- ===== src/Handlers/Connection.antt =====
-- NewSession, InitWatcher, SetNotifier, InitEdenWatcher and Close of a Session, HandleConnection, and
-- HandleStdio with its heartbeat: server/server/jsonrpc.go. The goroutines of the requests run in the
-- order of their frames, when Serve has read the last one and before the deferred calls.
pub mod Closed
mod Tests
use flit_el.Prelude.{
  ℕ, suc, ◌+◌, Bool, true, false, Option, none, some, List, [], ◌∷◌, ◌++◌, Bytes, Text, codes,
  length, ◌&&◌, not, if◌then◌else◌,
}
use flit_el.Prelude.Results.{Result, ok, err}
use flit_el.Prelude.Int64.{ℤ}
use flit_el.Watcher.Interface.{Fsnotify}
use flit_el.Watcher.{new_watcher}
use flit_el.Session.{new_session}
use flit_el.FsHandler.Os.{Os}
use flit_el.FsHandler.Stat.{decimal}
use flit_el.Notices.World.{with_sess}
use flit_el.Eden.{new_eden_watcher, stop}
use flit_el.Exec as exec
use flit_el.Exec.Control.{close_all_processes}
use flit_el.Tunnel as tunnel
use flit_el.Flitrpc.Sink.{Sink, write}
use flit_el.Flitrpc.Codec.{Codec}
use flit_el.Flitrpc.Frame.{Frame, Meta}
use flit_el.Flitrpc.Server.{new_server, handle_request}
use flit_el.Flitrpc.Server.Loop.{Outcome, returned, blocked, out_of_fuel, serve}
use flit_el.Flitrpc.Server.Requests.{start_request, finish_request}
use flit_el.Flitrpc.Server.{Server}
use flit_el.Handlers.Lifetime as lifetime
use flit_el.Handlers.Lifetime.{close_watches, connection_opened, connection_closed}
use flit_el.Handlers.App.{App, HereApp}
use flit_el.Handlers.Init.{Host}
use flit_el.Handlers.Protocol.{Decoders, Encoders, System}
use flit_el.Handlers.Register.{register_handlers}

-- ProtoVersion
abbrev pub proto_version : ℕ
proto_version = 1

-- ReadyMessage, with its fields as json.Marshal names them
unfoldable pub ready_message : Bytes
unfolding decimal
ready_message =
    codes "{\"flit_ready\":true,\"proto_version\":" ++ (decimal proto_version ++ codes "}")

module _ (n : Fsnotify) (os : Os) where
  open n use {State as Watches}
  open os use {State}

  -- NewSession, on a server and a host
  unfoldable pub new_app : lifetime.Server → ℕ → Host → State → HereApp n os
  new_app server clock host sys = record {
    server = server;
    clock = clock;
    host = host;
    world = record { sess = new_session n none; sys = sys; sent = []; notifying = false };
    procs = some exec.new_manager;
    tunnels = none;
    eden = none;
    shutdowns = 0;
    crashed = false;
  }

  -- InitWatcher, where fsnotify makes a watcher, or returns an error
  unfoldable pub init_watcher : Option Watches → HereApp n os → HereApp n os
  init_watcher none app = app
  init_watcher (some fs) app = record app {
    world = with_sess (λ s. record s { watcher = some (new_watcher n fs) }) app.world;
  }

  -- SetNotifier; the loggers are left out.
  unfoldable pub set_notifier : HereApp n os → HereApp n os
  set_notifier app = record app {
    world = record app.world { notifying = true };
    tunnels = some tunnel.new_manager;
  }

  -- InitEdenWatcher
  unfoldable pub init_eden_watcher : HereApp n os → HereApp n os
  init_eden_watcher app = elim app.eden [
    | none ↦ record app { eden = some new_eden_watcher }
    | some e ↦ app
  ]

  -- Close, while none of the session's goroutines runs
  unfoldable pub close_session : HereApp n os → HereApp n os
  unfolding close_watches
  close_session app = record app {
    world = with_sess (close_watches n) app.world;
    eden = elim app.eden [ none ↦ none | some e ↦ some (stop e) ];
    procs = elim app.procs [ none ↦ none | some m ↦ some (close_all_processes m) ];
    tunnels = elim app.tunnels [ none ↦ none | some m ↦ some (tunnel.close_all m) ];
  }

  module _ {Value : Type 0} (c : Codec Value) (d : Decoders) (e : Encoders Value)
      (sys : System) where
    -- The RPC server of a connection, with its handlers and its session.
    unfoldable pub set_up : Option Watches → Sink → HereApp n os → Server Value (HereApp n os)
    unfolding init_watcher set_notifier init_eden_watcher register_handlers
    set_up watches out app =
        register_handlers n os d e sys c
          (new_server c out (init_eden_watcher (set_notifier (init_watcher watches app))))

    -- The goroutines of the requests.
    unfoldable pub run_requests :
        List (Frame (Meta Value)) → Server Value (HereApp n os) → Server Value (HereApp n os)
    run_requests [] sv = sv
    run_requests (f ∷ fs) sv = run_requests fs (handle_request c f sv)

    -- Serve on what the client sends, with enough fuel.
    unfoldable pub serve_session :
        Bytes → Server Value (HereApp n os) → Outcome × Server Value (HereApp n os)
    unfolding serve run_requests
    serve_session input sv =
        let r =
          serve c (suc (length input)) (record { input = input; server = sv; spawned = [] }) in
        (r.0, run_requests r.1.spawned r.1.server)

    -- What HandleConnection defers runs where Serve returns.
    unfoldable pub when_ended :
        Outcome → (HereApp n os → HereApp n os) → HereApp n os → HereApp n os
    when_ended (returned e) f app = f app
    when_ended blocked f app = app
    when_ended out_of_fuel f app = app

    -- The deferred calls of HandleConnection
    unfoldable pub end_connection : ℕ → HereApp n os → HereApp n os
    unfolding close_session
    end_connection k app = close_session (record app { server = connection_closed k app.server })

    -- HandleConnection of the connection `k`, on the server, at a time, on a host and its files: how
    -- Serve ends, what the client was sent, and the application at the end.
    unfoldable pub handle_connection :
        ℕ
        → Option Watches
        → Bytes
        → lifetime.Server
        → ℕ
        → Host
        → State
        → Outcome × Sink × HereApp n os
    unfolding new_app set_up serve_session when_ended end_connection
    handle_connection k watches input server clock host files =
        let app = new_app (connection_opened k server) clock host files in
        let r = serve_session input (set_up watches (record { written = []; outcomes = [] }) app) in
        (r.0, r.1.sink, when_ended r.0 (end_connection k) r.1.app)

    -- HandleStdio
    unfoldable pub handle_stdio :
        Option Watches → Bytes → lifetime.Server → ℕ → Host → State → Outcome × Sink × HereApp n os
    unfolding new_app set_up serve_session when_ended close_session ready_message
    handle_stdio watches input server clock host files =
        let app = new_app server clock host files in
        let line = (write ready_message (record { written = []; outcomes = [] })).1 in
        let greeted = (write (10 ∷ []) line).1 in
        let r = serve_session input (set_up watches greeted app) in
        (r.0, r.1.sink, when_ended r.0 close_session r.1.app)

    -- A tick of the heartbeat up to the wait for its response: the id that it waits for; none where it
    -- ends, because the server or the connection has ended, or the request could not be written.
    unfoldable pub heartbeat :
        Value → Bool → Server Value (HereApp n os) → Option ℤ × Server Value (HereApp n os)
    unfolding start_request
    heartbeat nil ended sv =
        if sv.app.server.done
        then (none, sv)
        else if ended
        then (none, sv)
        else start_request c (codes "heartbeat") nil sv
