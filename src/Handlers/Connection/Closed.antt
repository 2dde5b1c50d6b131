-- ===== src/Handlers/Connection/Closed.antt =====
-- What a connection leaves: server/server/jsonrpc.go.
use flit_el.Prelude.{
  ℕ, suc, length, ◌≡◌, refl, ◌∙◌, Option, none, some, List, [], ◌∷◌, ◌++◌, codes, Text, Bytes,
  text_eq, nat_eq, ==_self, arith,
}
use flit_el.Prelude.GoMap.{lookup, lookup-erase}
use flit_el.Watcher.Interface.{Fsnotify}
use flit_el.FsHandler.Os.{Os}
use flit_el.Exec as exec
use flit_el.Exec.Control.{close_all_processes}
use flit_el.Exec.Control.Closed as process
use flit_el.Tunnel as tunnel
use flit_el.Tunnel.Closed as tunnels
use flit_el.Flitrpc.Sink.{Sink}
use flit_el.Flitrpc.Codec.{Codec}
use flit_el.Flitrpc.Frame.{FrameError}
use flit_el.Handlers.App.{HereApp}
use flit_el.Handlers.Lifetime as lifetime
use flit_el.Handlers.Init.{Host}
use flit_el.Flitrpc.Server.{Server, Handler, new_server, handle}
use flit_el.Flitrpc.Server.Loop.{Outcome, returned}
use flit_el.Flitrpc.Server.Loop.Unblocked.{IsUnawaited, serve-EndsUnawaited}
use flit_el.Handlers.Lifetime.{connection_opened, connection_closed}
use flit_el.Handlers.Protocol.{Decoders, Encoders, System}
use flit_el.Handlers.Register.{register_each, register_handlers, active_methods, shut_down}
use flit_el.Handlers.Connection.{
  new_app, init_watcher, set_notifier, init_eden_watcher, close_session, serve_session, set_up,
  when_ended, end_connection, handle_connection,
}

register_each-IsUnawaited :
    {Value S : Type 0} (c : Codec Value) (hs : List (Text × Handler Value S)) (sv : Server Value S)
    → IsUnawaited c sv
    → IsUnawaited c (register_each c hs sv)
unfolding handle
register_each-IsUnawaited c [] sv h = h
register_each-IsUnawaited c ((method, m) ∷ hs) sv h =
    register_each-IsUnawaited c hs (handle c method m sv) h

module _ (n : Fsnotify) (os : Os) where
  open n use {State as Watches}
  open os use {State}

  -- What the end of a connection makes of the processes, and of the tunnels.
  abbrev pub ProcsClosed : Option exec.Manager → Option exec.Manager → Type 0
  ProcsClosed none after = after ≡ none
  ProcsClosed (some m) after = (m' : exec.Manager) × (after ≡ some m') × process.AllClosed m m'

  abbrev pub TunnelsClosed : Option tunnel.Manager → Option tunnel.Manager → Type 0
  TunnelsClosed none after = after ≡ none
  TunnelsClosed (some m) after = (m' : tunnel.Manager) × (after ≡ some m') × tunnels.AllClosed m m'

  -- What it makes of the whole session.
  abbrev pub SessionClosed : HereApp n os → HereApp n os → Type 0
  SessionClosed before after =
      ProcsClosed before.procs after.procs × TunnelsClosed before.tunnels after.tunnels

  closed_procs :
      (o : Option exec.Manager)
      → ProcsClosed o (elim o as (λ x. Option exec.Manager) [
        | none ↦ none
        | some m ↦ some (close_all_processes m)
      ])
  closed_procs none = refl
  closed_procs (some m) = (close_all_processes m, refl, process.close_all_processes-AllClosed m)

  closed_tunnels :
      (o : Option tunnel.Manager)
      → TunnelsClosed o (elim o as (λ x. Option tunnel.Manager) [
        | none ↦ none
        | some m ↦ some (tunnel.close_all m)
      ])
  closed_tunnels none = refl
  closed_tunnels (some m) = (tunnel.close_all m, refl, tunnels.close_all-AllClosed m)

  close_session-SessionClosed : (app : HereApp n os) → SessionClosed app (close_session n os app)
  unfolding close_session
  close_session-SessionClosed app = (closed_procs app.procs, closed_tunnels app.tunnels)

  module _ {Value : Type 0} (c : Codec Value) (d : Decoders) (e : Encoders Value)
      (sys : System) where
    -- How Serve ends, and the server at that time.
    abbrev pub served :
        ℕ
        → Option Watches
        → Bytes
        → lifetime.Server
        → ℕ
        → Host
        → State
        → Outcome × Server Value (HereApp n os)
    served k watches input server clock host files = serve_session n os c d e sys input (
        set_up n os c d e sys watches (record { written = []; outcomes = [] })
          (new_app n os (connection_opened k server) clock host files))

    set_up-IsUnawaited :
        (watches : Option Watches) (out : Sink) (app : HereApp n os)
        → IsUnawaited c (set_up n os c d e sys watches out app)
    unfolding set_up register_handlers new_server
    set_up-IsUnawaited watches out app =
        let start = init_eden_watcher n os (set_notifier n os (init_watcher n os watches app)) in
        register_each-IsUnawaited c
          (active_methods n os d e sys ++ ((codes "shutdown", shut_down n os d e sys) ∷ []))
          (new_server c out start) refl

    serve_session-returned :
        (input : Bytes) (sv : Server Value (HereApp n os))
        → IsUnawaited c sv
        → (err : FrameError) × ((serve_session n os c d e sys input sv).0 ≡ returned err)
    unfolding serve_session
    serve_session-returned input sv h =
        let (err, q, w) =
          serve-EndsUnawaited c (suc (length input))
            (record { input = input; server = sv; spawned = [] }) (omega arith) h in
        (err, q)

    end_connection-closed :
        (k : ℕ) (app : HereApp n os)
        → (lookup k (end_connection n os c d e sys k app).server.connections ≡ none)
          × SessionClosed app (end_connection n os c d e sys k app)
    unfolding end_connection connection_closed close_session
    end_connection-closed k app = (
      lookup-erase k k app.server.connections ∙ rw (==_self k) refl,
      close_session-SessionClosed (record app { server = connection_closed k app.server }),
    )

    -- Whatever a client sends, HandleConnection ends with an error of ReadFrame. Where the goroutines of
    -- the requests have run by then, it leaves no entry of the connection with the server; no process is
    -- in the map, and each that was there when Serve had returned takes no more input, and its channel is
    -- closed; no tunnel listens, no connection of a tunnel is in the map, and each that was there is
    -- closed.
    pub connection_released :
        (k : ℕ) (watches : Option Watches) (input : Bytes) (server : lifetime.Server) (clock : ℕ)
        (host : Host) (files : State)
        → (let r = handle_connection n os c d e sys k watches input server clock host files in
            ((err : FrameError) × (r.0 ≡ returned err))
            × (lookup k r.2.server.connections ≡ none)
            × SessionClosed (served k watches input server clock host files).1.app r.2)
    unfolding handle_connection when_ended
    connection_released k watches input server clock host files =
        let r = served k watches input server clock host files in
        let (err, q) = serve_session-returned input _ (set_up-IsUnawaited watches _ _) in
        let (entry, closed) : (lookup k (end_connection n os c d e sys k r.1.app).server.connections
              ≡ none)
            × SessionClosed r.1.app (end_connection n os c d e sys k r.1.app) =
          end_connection-closed k r.1.app in
        ((err, q), rw q entry, rw q closed)
