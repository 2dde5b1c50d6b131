-- ===== src/Handlers/App.antt =====
-- What the handlers of a connection share, and how registerHandlers wraps them:
-- server/server/jsonrpc.go, and HandleFunc and HandleTyped of server/flitrpc/flitrpc.go.
use flit_el.Prelude.{◌≡◌, refl, ℕ, ◌/◌, ◌%◌, Bool, Option, none, some, Text}
use flit_el.Prelude.Int64.{ℤ, pos}
use flit_el.Prelude.Results.{Result, ok, err}
use flit_el.Watcher.Interface.{Fsnotify}
use flit_el.FsHandler.Os.{Os, Time}
use flit_el.FsHandler.Io.{Io, Failure, error_text}
use flit_el.Notices.World.{World, ask}
use flit_el.Notices.Changes.{Here}
use flit_el.Eden.{EdenWatcher, Search, root, no_root, out_of_fuel, get_eden_root, ensure_watching}
use flit_el.Exec as exec
use flit_el.Tunnel as tunnel
use flit_el.Handlers.Init.{Host}
use flit_el.Handlers.Lifetime.{Server, touch}

-- The Server and the Session of a connection, at the time `clock` in nanoseconds; a manager is none
-- where it is nil. `shutdowns` counts the goroutines that call Shutdown in five seconds; `crashed`
-- says whether a handler has sent on a closed channel, which ends the program.
pub record App (F S : Type 0) : Type 0 where
  pub server : Server
  pub clock : ℕ
  pub host : Host
  pub world : World F S
  pub procs : Option exec.Manager
  pub tunnels : Option tunnel.Manager
  pub eden : Option EdenWatcher
  pub shutdowns : ℕ
  pub crashed : Bool

-- time.Now() in seconds, and as a time
abbrev pub seconds_of : ℕ → ℤ
seconds_of t = pos (t / 1000000000)

abbrev pub time_of : ℕ → Time
time_of t = record { sec = seconds_of t; nsec = t % 1000000000 }

-- An error's text as a handler returns it.
abbrev pub text_error : {A : Type 0} → Result Failure A → Result Text A
text_error (ok a) = ok a
text_error (err e) = err (error_text e)

module _ (n : Fsnotify) (os : Os) where
  open n use {State as Watches}
  open os use {State}

  abbrev pub HereApp : Type 0
  HereApp = App Watches State

  -- A handler's work on the application, with its result.
  abbrev pub Work : Type 0 → Type 0
  Work A = HereApp → Result Text A × HereApp

  -- s.touch()
  unfoldable pub touched : {A : Type 0} → Work A → Work A
  touched m app = m (record app { server = touch app.clock app.server })

  abbrev pub in_world : {A : Type 0} → (Here n os → Result Failure A × Here n os) → Work A
  in_world f app = let r = f app.world in (text_error r.0, record app { world = r.1 })

  -- A method of the file system handler.
  abbrev pub in_fs : {A : Type 0} → Io State Failure A → Work A
  in_fs m app = in_world (ask m) app

  note_root : EdenWatcher → Search → HereApp → HereApp
  note_root e (root r) app = record app { eden = some (ensure_watching r e) }
  note_root e no_root app = app
  note_root e out_of_fuel app = app

  ensure_with : Option EdenWatcher → Text → HereApp → HereApp
  unfolding note_root
  ensure_with none path app = app
  ensure_with (some e) path app =
      let found = ask (get_eden_root os path) app.world in
      note_root e found.0 (record app { world = found.1 })

  -- EnsureEdenWatching
  unfoldable pub ensure_eden_watching : Text → HereApp → HereApp
  unfolding ensure_with
  ensure_eden_watching path app = ensure_with app.eden path app

  note_root-server :
      (e : EdenWatcher) (s : Search) (app : HereApp) → (note_root e s app).server ≡ app.server
  unfolding note_root
  note_root-server e (root r) app = refl
  note_root-server e no_root app = refl
  note_root-server e out_of_fuel app = refl

  ensure_with-server :
      (o : Option EdenWatcher) (path : Text) (app : HereApp)
      → (ensure_with o path app).server ≡ app.server
  unfolding ensure_with
  ensure_with-server none path app = refl
  ensure_with-server (some e) path app =
      let found = ask (get_eden_root os path) app.world in
      note_root-server e found.0 (record app { world = found.1 })

  pub ensure_eden_watching-server :
      (path : Text) (app : HereApp) → (ensure_eden_watching path app).server ≡ app.server
  unfolding ensure_eden_watching
  ensure_eden_watching-server path app = ensure_with-server app.eden path app
