-- ===== src/Handlers/Answers.antt =====
-- How registerHandlers wraps what the managers and the handlers answer: server/server/jsonrpc.go;
-- HandleFunc and HandleTyped: server/flitrpc/flitrpc.go.
use flit_el.Prelude.{
  Bool, true, false, Option, none, some, [], ◌++◌, Bytes, Text, codes, is_empty, if◌then◌else◌,
}
use flit_el.Prelude.Results.{Result, ok, err}
use flit_el.Watcher.Interface.{Fsnotify}
use flit_el.FsHandler.Os.{Os}
use flit_el.FsHandler.Io.{Io, Failure}
use flit_el.Exec as exec
use flit_el.Exec.{InputResult}
use flit_el.Exec.Control.{
  ControlError, process_not_found, unknown_signal, not_a_pty, unknown_op, system_error,
}
use flit_el.Tunnel as tunnel
use flit_el.Tunnel.{SendResult}
use flit_el.Handlers.App.{Work, touched, in_fs}
use flit_el.Handlers.Files.{with_manager}
use flit_el.Handlers.Protocol.{Decoders, Encoders, System}

-- The texts of the managers' errors; `name` is the signal's or the operation's.
control_text : Text → Text → ControlError → Text
control_text id name process_not_found = codes "process not found: " ++ id
control_text id name unknown_signal = codes "unknown signal: " ++ name
control_text id name not_a_pty = codes "process is not a PTY: " ++ id
control_text id name unknown_op = codes "unknown ptyctl op: " ++ name
control_text id name (system_error t) = t

unfoldable pub controlled : {A : Type 0} → Text → Text → Result ControlError A → Result Text A
unfolding control_text
controlled id name (ok a) = ok a
controlled id name (err e) = err (control_text id name e)

-- A manager that a method only reads.
abbrev pub reading : {M A : Type 0} → (M → A) → M → A × M
reading f m = (f m, m)

-- What an answer says, and whether the send panicked.
unfoldable pub input_answer : Text → InputResult → Result Text (Unit {0}) × Bool
input_answer id InputResult.queued = (ok tt, false)
input_answer id InputResult.ignored = (ok tt, false)
input_answer id InputResult.not_found = (err (codes "process not found: " ++ id), false)
input_answer id InputResult.buffer_full =
    (err (codes "input buffer full for process " ++ id), false)
input_answer id InputResult.panics = (err [], true)

unfoldable pub send_answer : Text → SendResult → Result Text (Unit {0}) × Bool
send_answer id SendResult.sent = (ok tt, false)
send_answer id SendResult.not_found =
    (err (codes "connection " ++ (id ++ codes " not found")), false)
send_answer id SendResult.buffer_full =
    (err (codes "tunnel write buffer full for connection " ++ id), false)
send_answer id SendResult.panics = (err [], true)

-- A method that returns an error, whose text is left out.
or_fail : {A : Type 0} → Option A → Result Text A
or_fail none = err []
or_fail (some a) = ok a

unfoldable pub done_or_fail : Bool → Result Text (Unit {0})
done_or_fail true = ok tt
done_or_fail false = err []

-- A nil payload is an empty one.
unfoldable pub content_of : Option Bytes → Bytes
content_of none = []
content_of (some b) = b

unfoldable pub map_ok : {A B : Type 0} → (A → B) → Result Text A → Result Text B
map_ok f (ok a) = ok (f a)
map_ok f (err t) = err t

module _ (n : Fsnotify) (os : Os) {Value : Type 0} (d : Decoders) (e : Encoders Value)
    (sys : System) where
  open os use {State}

  abbrev pub H : Type 0
  H = Bytes → Bytes → Work n os (Value × Bytes)

  -- The result of a method, as the value to encode.
  unfoldable pub giving : {A B : Type 0} → (A → B) → Work n os A → Work n os B
  unfolding map_ok
  giving f m app = let r = m app in (map_ok f r.0, r.1)

  -- HandleFunc
  unfoldable pub handle_func : (Bytes → Work n os Value) → H
  unfolding giving
  handle_func f raw payload app = giving (λ v. (v, [])) (f raw) app

  unfoldable pub decoded_params :
      {P : Type 0} → (P → Work n os Value) → Result Text P → Work n os Value
  decoded_params f (ok p) app = f p app
  decoded_params f (err t) app = (err (codes "invalid params: " ++ t), app)

  -- HandleTyped, where `zero` is the zero value of the type of the params
  unfoldable pub handle_typed :
      {P : Type 0} → P → (Bytes → Result Text P) → (P → Work n os Value) → H
  unfolding handle_func decoded_params
  handle_typed zero unmarshal f =
      handle_func (λ raw. if is_empty raw then f zero else decoded_params f (unmarshal raw))

  -- The `simple` of registerHandlers
  unfoldable pub simple : {A : Type 0} → (A → Value) → (Bytes → Io State Failure A) → H
  unfolding handle_func giving touched
  simple enc f = handle_func (λ raw. touched n os (giving enc (in_fs n os (f raw))))

  -- A method of the process manager, or of the tunnel manager, unless it is nil.
  unfoldable pub with_procs :
      {A : Type 0} → (exec.Manager → Result Text A × exec.Manager) → Work n os A
  unfolding with_manager
  with_procs f app =
      let r = with_manager (codes "process manager not initialized") f app.procs in
      (r.0, record app { procs = r.1 })

  unfoldable pub with_tunnels :
      {A : Type 0} → (tunnel.Manager → Result Text A × tunnel.Manager) → Work n os A
  unfolding with_manager
  with_tunnels f app =
      let r = with_manager (codes "tunnel manager not initialized") f app.tunnels in
      (r.0, record app { tunnels = r.1 })

  unfoldable pub after_send : Result Text (Result Text (Unit {0}) × Bool) → Work n os (Unit {0})
  after_send (ok (result, true)) app = (result, record app { crashed = true })
  after_send (ok (result, false)) app = (result, app)
  after_send (err t) app = (err t, app)

  -- A method that may panic.
  unfoldable pub or_crash : Work n os (Result Text (Unit {0}) × Bool) → Work n os (Unit {0})
  unfolding after_send
  or_crash m app = let r = m app in after_send r.0 r.1
