-- ===== src/Handlers/Register.antt =====
-- The table of registerHandlers: server/server/jsonrpc.go.
pub mod Notes
pub mod Touches
use flit_el.Prelude.{
  ℕ, ◌+◌, Bool, true, false, Option, none, some, List, [], ◌∷◌, ◌++◌, Bytes, Text, codes, is_empty,
  if◌then◌else◌,
}
use flit_el.Prelude.Results.{Result, ok, err}
use flit_el.Watcher.Interface.{Fsnotify}
use flit_el.FsHandler.Os.{Os}
use flit_el.FsHandler.Io.{Io, Failure, error_text}
use flit_el.FsHandler.Types.{ReadResult}
use flit_el.FsHandler.Stat.{stat, read, exists, realpath}
use flit_el.FsHandler.Files.{mkdir, delete, rename, copy, chmod, touch}
use flit_el.FsHandler.CopyDir.{copy_dir}
use flit_el.Notices.Changes.{Here}
use flit_el.Exec as exec
use flit_el.Exec.{InputResult}
use flit_el.Exec.Start.{StartParams, start}
use flit_el.Exec.Control.{
  ControlError, process_not_found, unknown_signal, not_a_pty, unknown_op, system_error, signal,
  close_input, pty_ctl,
}
use flit_el.Tunnel as tunnel
use flit_el.Tunnel.{SendResult}
use flit_el.Flitrpc.Codec.{Codec}
use flit_el.Flitrpc.Server.{Server, Handler, handle}
use flit_el.Handlers.App.{
  App, HereApp, Work, touched, in_world, in_fs, time_of, seconds_of, ensure_eden_watching,
}
use flit_el.Handlers.Files.{
  fs_write, fs_info, fs_open_dir, fs_watch, fs_unwatch, fs_open, fs_close, fs_batch,
  session_clear_cache, with_manager,
}
use flit_el.Handlers.Init.{sys_info, init}
use flit_el.Handlers.Protocol.{
  Decoders, Encoders, System, SignalParams, PtyCtlParams, ConnectParams, ListenParams, no_start,
  no_signal, no_pty_ctl, no_connect, no_listen,
}
use flit_el.Handlers.FileMethods.{file_methods, session_methods}
use flit_el.Handlers.Answers.{
  giving, handle_func, handle_typed, simple, with_procs, with_tunnels, or_crash, H, controlled,
  reading, input_answer, send_answer, done_or_fail, content_of,
}

-- Handle, for each of a list.
abbrev pub register_each :
    {Value S : Type 0}
    → Codec Value
    → List (Text × Handler Value S)
    → Server Value S
    → Server Value S
register_each c [] sv = sv
register_each c ((method, h) ∷ hs) sv = register_each c hs (handle c method h sv)

module _ (n : Fsnotify) (os : Os) {Value : Type 0} (d : Decoders) (e : Encoders Value)
    (sys : System) where
  open os use {State}

  -- What exec/start calls; the calls on the command are the system's.
  start_process : StartParams → exec.Manager → Result Text Text × exec.Manager
  start_process p m = let r = start (sys.answers p) p m in (r.0, r.2)

  send_input :
      Result Text Text
      → Bytes
      → exec.Manager
      → Result Text (Result Text (Unit {0}) × Bool) × exec.Manager
  unfolding input_answer
  send_input (err t) bytes m = (err t, m)
  send_input (ok id) bytes m = let r = exec.input id bytes m in (ok (input_answer id r.0), r.1)

  send_to_tunnel :
      Result Text Text
      → Bytes
      → tunnel.Manager
      → Result Text (Result Text (Unit {0}) × Bool) × tunnel.Manager
  unfolding send_answer
  send_to_tunnel (err t) bytes m = (err t, m)
  send_to_tunnel (ok id) bytes m =
      let r = tunnel.send_data id bytes m in (ok (send_answer id r.0), r.1)

  -- The requests on processes.
  unfoldable pub process_methods : List (Text × H n os d e sys)
  unfolding start_process send_input controlled
  process_methods =
      (
        codes "exec/start",
        handle_typed n os d e sys no_start d.start (λ p.
            touched n os
              (giving n os d e sys e.started (with_procs n os d e sys (start_process p)))),
      )
      ∷ (
        codes "exec/input",
        λ raw payload. touched n os (
            giving n os d e sys (λ u. (e.done, []))
              (or_crash n os d e sys (with_procs n os d e sys (send_input (d.text raw) payload)))),
      )
      ∷ (
        codes "exec/signal",
        handle_typed n os d e sys no_signal d.signal (λ p. touched n os (
            giving n os d e sys (λ u. e.done)
              (with_procs n os d e sys (
                reading
                  (λ m. controlled p.proc_id p.signal (signal sys.kill p.proc_id p.signal m)))))),
      )
      ∷ (
        codes "exec/close-input",
        handle_typed n os d e sys [] d.text (λ id. touched n os (
            giving n os d e sys (λ u. e.done)
              (with_procs n os d e sys
                (λ m. let r = close_input id m in (controlled id [] r.0, r.1))))),
      )
      ∷ (
        codes "exec/ptyctl",
        handle_typed n os d e sys no_pty_ctl d.pty_ctl (λ p. touched n os (
            giving n os d e sys (λ u. e.done)
              (with_procs n os d e sys (
                reading (λ m.
                  controlled p.proc_id p.op
                    (pty_ctl sys.on_terminal p.proc_id p.op p.rows p.cols m)))))),
      )
      ∷ []

  listened : ListenParams → Option ℕ → Result Text Value
  listened p none = err []
  listened p (some port) = ok (e.listening p.tunnel_id port)

  -- tunnel/listen where net.Listen fails, and where it gets a port
  listen_on : ListenParams → Option ℕ → tunnel.Manager → Result Text Value × tunnel.Manager
  unfolding listened
  listen_on p bound m = let r = tunnel.listen p.tunnel_id bound m in (listened p r.0, r.1)

  -- The requests on tunnels.
  unfoldable pub tunnel_methods : List (Text × H n os d e sys)
  unfolding send_to_tunnel listen_on done_or_fail
  tunnel_methods =
      (
        codes "tunnel/listen",
        handle_typed n os d e sys no_listen d.listen
            (λ p. touched n os (with_tunnels n os d e sys (listen_on p (sys.bound_port p)))),
      )
      ∷ (
        codes "tunnel/close",
        handle_typed n os d e sys [] d.text (λ id. touched n os (
            giving n os d e sys (λ u. e.done)
              (with_tunnels n os d e sys
                (λ m. let r = tunnel.close_tunnel id m in (done_or_fail r.0, r.1))))),
      )
      ∷ (
        codes "tunnel/connect",
        handle_typed n os d e sys no_connect d.connect (λ p. touched n os (
            giving n os d e sys (λ u. e.done)
              (with_tunnels n os d e sys (λ m.
                let r = tunnel.connect p.conn_id p.tunnel_id (sys.dialled p) m in
                (done_or_fail r.0, r.1))))),
      )
      ∷ (
        codes "tunnel/data",
        λ raw payload. touched n os (
            giving n os d e sys (λ u. (e.done, []))
              (or_crash n os d e sys
                (with_tunnels n os d e sys (send_to_tunnel (d.text raw) payload)))),
      )
      ∷ (
        codes "tunnel/disconnect",
        handle_typed n os d e sys [] d.text (λ id. touched n os (
            giving n os d e sys (λ u. e.done)
              (with_tunnels n os d e sys (λ m. (ok tt, tunnel.disconnect id m))))),
      )
      ∷ []

  -- The requests about the host.
  unfoldable pub host_methods : List (Text × H n os d e sys)
  host_methods =
      (
        codes "sys/info",
        handle_func n os d e sys
            (λ raw. touched n os (λ app. (ok (e.sys_info (sys_info app.host)), app))),
      )
      ∷ (
        codes "init",
        handle_func n os d e sys (λ raw.
            touched n os
              (λ app. giving n os d e sys e.initial (in_fs n os (init os app.host)) app)),
      )
      ∷ []

  -- shutdown, which starts a goroutine that calls Shutdown in five seconds
  unfoldable pub shut_down : H n os d e sys
  unfolding handle_func
  shut_down =
      handle_func n os d e sys
        (λ raw app. (ok e.done, record app { shutdowns = app.shutdowns + 1 }))

  -- The methods of the protocol that note the activity.
  unfoldable pub active_methods : List (Text × H n os d e sys)
  active_methods =
      file_methods n os d e sys
      ++ (session_methods n os d e sys ++ (process_methods ++ (host_methods ++ tunnel_methods)))

  -- registerHandlers
  unfoldable pub register_handlers :
      Codec Value → Server Value (HereApp n os) → Server Value (HereApp n os)
  register_handlers c sv =
      register_each c (active_methods ++ ((codes "shutdown", shut_down) ∷ [])) sv
