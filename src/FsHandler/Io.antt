-- ===== src/FsHandler/Io.antt =====
-- The control flow of server/fs/handler.go: calls that may fail, their errors as the requests
-- return them, and calls whose error is ignored.
use flit_el.Prelude.{true, false, Option, none, some, Text, codes, ◌++◌}
use flit_el.Prelude.Results.{Result, ok, err}
use flit_el.Prelude.Int64.{ℤ, negsuc}
use flit_el.Filepath.{is_rooted, clean, join}
use flit_el.FsHandler.Os.{Os, OsError, ErrorKind, not_exist, permission, exist, other_kind}

-- RPCError
pub record RpcError : Type 0 where
  pub code : ℤ
  pub message : Text
  pub detail : Option Text

abbrev pub invalid_params : ℤ
invalid_params = negsuc 32601

abbrev pub internal_error : ℤ
internal_error = negsuc 32602

abbrev pub file_not_found : ℤ
file_not_found = negsuc 32000

abbrev pub permission_err : ℤ
permission_err = negsuc 32001

abbrev pub file_exists : ℤ
file_exists = negsuc 32002

-- The error that a method returns: an *RPCError, the system's error as it is, or one of fmt.Errorf.
pub data Failure : Type 0 where
  rpc : RpcError → Failure
  raw : OsError → Failure
  plain : Text → Failure

abbrev error_of_kind : ErrorKind → Text → RpcError
error_of_kind not_exist t = record {
  code = file_not_found;
  message = codes "File not found";
  detail = some t;
}
error_of_kind permission t = record {
  code = permission_err;
  message = codes "Permission denied";
  detail = some t;
}
error_of_kind exist t = record {
  code = file_exists;
  message = codes "File exists";
  detail = some t;
}
error_of_kind other_kind t = record {
  code = internal_error;
  message = codes "File operation failed: " ++ t;
  detail = none;
}

-- fileError
unfoldable pub file_error : OsError → RpcError
file_error e = error_of_kind e.kind e.text

-- Error()
unfoldable pub error_text : Failure → Text
error_text (rpc e) = e.message
error_text (raw e) = e.text
error_text (plain t) = t

-- A computation that changes the state and returns a value or an error.
abbrev pub Io : Type 0 → Type 0 → Type 0 → Type 0
Io S E A = S → Result E A × S

abbrev pub go_on : {S E A B : Type 0} → Result E A × S → (A → Io S E B) → Result E B × S
go_on (ok a, s) f = f a s
go_on (err e, s) f = (err e, s)

infixl 5 ◌>>=◌ ◌>>◌
abbrev pub ◌>>=◌ : {S E A B : Type 0} → Io S E A → (A → Io S E B) → Io S E B
◌>>=◌ m f s = go_on (m s) f

abbrev pub ◌>>◌ : {S E A B : Type 0} → Io S E A → Io S E B → Io S E B
m >> k = m >>= λ _. k

abbrev pub pure : {S E A : Type 0} → A → Io S E A
pure a s = (ok a, s)

abbrev pub fail : {S E A : Type 0} → E → Io S E A
fail e s = (err e, s)

abbrev pub map_error : {S E F A : Type 0} → (E → F) → Result E A × S → Result F A × S
map_error f (ok a, s) = (ok a, s)
map_error f (err e, s) = (err (f e), s)

-- `if err != nil { return nil, fileError(err) }`
abbrev pub checked : {S A : Type 0} → Io S OsError A → Io S Failure A
checked m s = map_error (λ e. rpc (file_error e)) (m s)

-- `if err != nil { return nil, err }`
abbrev pub unchanged : {S A : Type 0} → Io S OsError A → Io S Failure A
unchanged m s = map_error raw (m s)

abbrev pub succeeded : {S E F A : Type 0} → Result E A × S → Result F (Option A) × S
succeeded (ok a, s) = (ok (some a), s)
succeeded (err e, s) = (ok none, s)

-- `if x, err := …; err == nil`
abbrev pub attempt : {S E F A : Type 0} → Io S E A → Io S F (Option A)
attempt m s = succeeded (m s)

-- `x, err := …`, where the error is looked at
abbrev pub outcome : {S E F A : Type 0} → Io S E A → Io S F (Result E A)
outcome m s = let r = m s in (ok r.0, r.1)

-- `defer c()`
abbrev pub deferred : {S E A : Type 0} → (S → S) → Io S E A → Io S E A
deferred c m s = let r = m s in (r.0, c r.1)

-- decodeParams
abbrev pub decoded : {S P : Type 0} → Result Text P → Io S Failure P
decoded (ok p) s = (ok p, s)
decoded (err t) s = (
  err (rpc (record { code = invalid_params; message = codes "Invalid params"; detail = some t })),
  s,
)

module _ (os : Os) where
  open os use {State}

  -- filepath.Abs
  unfoldable pub abs : Text → Io State OsError Text
  abs path = elim (is_rooted path) [
    | true ↦ pure (clean path)
    | false ↦ os.getwd >>= λ wd. pure (join wd path)
  ]

  abbrev pub abs_of : Option Text → Io State Failure (Option Text)
  abs_of none = pure none
  abs_of (some p) = attempt (abs p)

  -- The absolute path that `path` resolves to; none where EvalSymlinks or Abs returns an error.
  unfoldable pub resolve : Text → Io State Failure (Option Text)
  unfolding abs
  resolve path = attempt (os.eval_symlinks path) >>= abs_of
