-- ===== src/Handlers/Protocol.antt =====
-- The params and the results of the requests as msgpack has them, and what the system answers to the
-- requests on processes and tunnels: both are interfaces. server/server/jsonrpc.go.
use flit_el.Prelude.{ℕ, Bool, false, Option, List, [], Bytes, Text}
use flit_el.Prelude.Results.{Result}
use flit_el.FsHandler.Types.{
  StatResult, ReadResult, WriteParams, WriteResult, MkdirParams, DeleteParams, RenameParams,
  CopyParams, ChmodParams, TouchParams, CopyDirParams, CopyDirResult, InfoResponse,
}
use flit_el.FsHandler.CopyDir.{Visit}
use flit_el.Exec.Start.{StartParams, Answers}
use flit_el.Exec.Control.{Sig, PtyOp}
use flit_el.Handlers.Init.{SysInfo, InitResult}

-- SignalParams, PtyCtlParams, ConnectParams and ListenParams
pub record SignalParams : Type 0 where
  pub proc_id : Text
  pub signal : Text

pub record PtyCtlParams : Type 0 where
  pub proc_id : Text
  pub op : Text
  pub rows : ℕ
  pub cols : ℕ

pub record ConnectParams : Type 0 where
  pub conn_id : Text
  pub tunnel_id : Text
  pub port : ℕ

pub record ListenParams : Type 0 where
  pub tunnel_id : Text
  pub port : ℕ

-- UnmarshalParams for each type of params; a text alone is a struct with one field.
pub record Decoders : Type 0 where
  pub text : Bytes → Result Text Text
  pub texts : Bytes → Result Text (List Text)
  pub mkdir : Bytes → Result Text MkdirParams
  pub delete : Bytes → Result Text DeleteParams
  pub rename : Bytes → Result Text RenameParams
  pub copy : Bytes → Result Text CopyParams
  pub chmod : Bytes → Result Text ChmodParams
  pub touch : Bytes → Result Text TouchParams
  pub copy_dir : Bytes → Result Text CopyDirParams
  pub write : Bytes → Result Text WriteParams
  pub start : Bytes → Result Text StartParams
  pub signal : Bytes → Result Text SignalParams
  pub pty_ctl : Bytes → Result Text PtyCtlParams
  pub connect : Bytes → Result Text ConnectParams
  pub listen : Bytes → Result Text ListenParams

-- The results, as values to encode; `named k t` is the map with the one entry k: t.
pub record Encoders (Value : Type 0) : Type 0 where
  pub done : Value
  pub named : Text → Text → Value
  pub stat : StatResult → Value
  pub read : ReadResult → Value
  pub count : ℕ → Value
  pub flag : Bool → Value
  pub copied : CopyDirResult → Value
  pub written : WriteResult → Value
  pub info : InfoResponse → Value
  pub started : Text → Value
  pub listening : Text → ℕ → Value
  pub sys_info : SysInfo → Value
  pub initial : InitResult → Value

-- What the system answers: to a start, a signal and an operation on a terminal, the port that a
-- listener gets, whether a dialled connection is made, and what Walk visits.
pub record System : Type 0 where
  pub answers : StartParams → Answers
  pub kill : ℕ → Sig → Result Text (Unit {0})
  pub on_terminal : ℕ → PtyOp → Result Text (Unit {0})
  pub bound_port : ListenParams → Option ℕ
  pub dialled : ConnectParams → Bool
  pub visits : Text → List Visit

-- The zero values of the types.
abbrev pub no_start : StartParams
no_start = record {
  proc_id = [];
  cmd = [];
  args = [];
  cwd = [];
  env = [];
  is_pty = false;
  rows = 0;
  cols = 0;
}

abbrev pub no_signal : SignalParams
no_signal = record { proc_id = []; signal = [] }

abbrev pub no_pty_ctl : PtyCtlParams
no_pty_ctl = record { proc_id = []; op = []; rows = 0; cols = 0 }

abbrev pub no_connect : ConnectParams
no_connect = record { conn_id = []; tunnel_id = []; port = 0 }

abbrev pub no_listen : ListenParams
no_listen = record { tunnel_id = []; port = 0 }
