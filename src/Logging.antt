-- ===== src/Logging.antt =====
-- server/server/log.go: the handlers of package log/slog that the server defines. The text of a time
-- or of a level, and the errors of `notify`, are left out.
mod Tests
use flit_el.Prelude.{
  ◌≡◌, refl, ◌∙◌, ap, arith, Bool, true, false, Option, none, some, List, [], ◌∷◌, ◌++◌, Text,
  text_eq, is_empty, map, not, ◌==◌, if◌then◌else◌,
}
use flit_el.Prelude.GoMap.{GoMap, lookup, insert, lookup-insert}
use flit_el.Prelude.Int64.{ℤ, int_ltb}

-- slog.Attr, whose value is of any type.
abbrev pub Attr : Type 0 → Type 0
Attr V = Text × V

-- slog.Record
pub record LogRecord (V : Type 0) : Type 0 where
  pub time : Text
  pub level : ℤ
  pub message : Text
  pub attrs : List (Attr V)

-- LogNotification; `attrs` is none where it is nil.
pub record LogNotification (V : Type 0) : Type 0 where
  pub time : Text
  pub level : ℤ
  pub msg : Text
  pub attrs : Option (GoMap Text V)

-- RPCLogHandler, and DiscardHandler.
pub data LogHandler (V : Type 0) : Type 0 where
  rpc_log : ℤ → List (Attr V) → List Text → LogHandler V
  discard : LogHandler V

module _ {V : Type 0} where
  -- NewRPCLogHandler
  unfoldable pub new_rpc_log_handler : ℤ → LogHandler V
  new_rpc_log_handler level = rpc_log level [] []

  -- Enabled
  unfoldable pub is_enabled : ℤ → LogHandler V → Bool
  is_enabled level (rpc_log own attrs groups) = not (int_ltb level own)
  is_enabled level discard = false

  -- `attrs[a.Key] = a.Value.Any()` for each
  unfoldable pub add_all : List (Attr V) → GoMap Text V → GoMap Text V
  add_all [] m = m
  add_all ((k, v) ∷ more) m = add_all more (insert k v m)

  or_nil : GoMap Text V → Option (GoMap Text V)
  or_nil m = if is_empty m then none else some m

  -- Handle: the notifications that it sends
  unfoldable pub handle_record : LogRecord V → LogHandler V → List (LogNotification V)
  unfolding add_all or_nil
  handle_record r (rpc_log level attrs groups) =
      record {
        time = r.time;
        level = r.level;
        msg = r.message;
        attrs = or_nil (add_all r.attrs (add_all attrs []));
      }
      ∷ []
  handle_record r discard = []

  -- WithAttrs
  unfoldable pub with_attrs : List (Attr V) → LogHandler V → LogHandler V
  with_attrs more (rpc_log level attrs groups) = rpc_log level (attrs ++ more) groups
  with_attrs more discard = discard

  -- WithGroup
  unfoldable pub with_group : Text → LogHandler V → LogHandler V
  with_group name (rpc_log level attrs groups) = rpc_log level attrs (groups ++ (name ∷ []))
  with_group name discard = discard

  -- MultiHandler.Enabled
  unfoldable pub multi_enabled : ℤ → List (LogHandler V) → Bool
  unfolding is_enabled
  multi_enabled level [] = false
  multi_enabled level (h ∷ hs) =
      let rest = multi_enabled level hs in if is_enabled level h then true else rest

  -- MultiHandler.Handle
  unfoldable pub multi_handle : LogRecord V → List (LogHandler V) → List (LogNotification V)
  unfolding is_enabled handle_record
  multi_handle r [] = []
  multi_handle r (h ∷ hs) =
      (if is_enabled r.level h then handle_record r h else []) ++ multi_handle r hs

  -- MultiHandler.WithAttrs
  unfoldable pub multi_with_attrs : List (Attr V) → List (LogHandler V) → List (LogHandler V)
  unfolding with_attrs
  multi_with_attrs more hs = map (with_attrs more) hs

  -- MultiHandler.WithGroup
  unfoldable pub multi_with_group : Text → List (LogHandler V) → List (LogHandler V)
  unfolding with_group
  multi_with_group name hs = map (with_group name) hs
