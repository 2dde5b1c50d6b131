-- ===== src/Handlers/Init.antt =====
-- The handlers of sys/info and init: server/server/jsonrpc.go. What package os says of the host is an
-- argument.
use flit_el.Prelude.{
  ℕ, Option, none, some, List, [], ◌∷◌, ◌++◌, map, Text, codes, drop, is_empty, has_prefix, text_eq,
  nat_eq, ◌==◌, ◌&&◌, not, if◌then◌else◌,
}
use flit_el.Prelude.Results.{Result, ok, err}
use flit_el.FsHandler.Os.{Os}
use flit_el.FsHandler.Io.{Io, Failure, ◌>>=◌, pure, outcome, error_text}
use flit_el.FsHandler.Types.{DirChild}
use flit_el.FsHandler.Stat.{or_empty}
use flit_el.FsHandler.Info.{read_dir_with_types}

-- What runtime, os and os/user say of the host; none is an error, and for `path_env` that the
-- variable is not set.
pub record Host : Type 0 where
  pub goos : Text
  pub goarch : Text
  pub pid : ℕ
  pub user_home_dir : Option Text
  pub host_name : Option Text
  pub current_user : Option Text
  pub path_env : Text

-- SysInfo
pub record SysInfo : Type 0 where
  pub os_name : Text
  pub arch : Text
  pub home_dir : Text
  pub hostname : Text
  pub username : Text
  pub path : List Text
  pub pid : ℕ

-- PathDirEntry
pub record PathDirEntry : Type 0 where
  pub path : Text
  pub children : Option (List DirChild)
  pub error : Text

-- InitResult
pub record InitResult : Type 0 where
  pub sys_info : SysInfo
  pub path_dirs : List PathDirEntry

abbrev split_head : ℕ → List Text → List Text
split_head c [] = (c ∷ []) ∷ []
split_head c (p ∷ ps) = (c ∷ p) ∷ ps

-- strings.Split(s, ":")
unfoldable pub split_colon : Text → List Text
split_colon [] = [] ∷ []
split_colon (c ∷ s) = if c == 58 then [] ∷ split_colon s else split_head c (split_colon s)

abbrev sys_info_of : Host → List Text → SysInfo
sys_info_of h path = record {
  os_name = h.goos;
  arch = h.goarch;
  home_dir = or_empty h.user_home_dir;
  hostname = or_empty h.host_name;
  username = or_empty h.current_user;
  path = path;
  pid = h.pid;
}

-- sys/info
unfoldable pub sys_info : Host → SysInfo
unfolding split_colon
sys_info h = sys_info_of h (if is_empty h.path_env then [] else split_colon h.path_env)

-- "~" and "~/" stand for the home directory, where it is known.
unfoldable pub expand_home : Text → Text → Text
expand_home home dir =
    if has_prefix dir (codes "~/") && not (is_empty home)
    then home ++ drop 1 dir
    else if (dir == codes "~") && not (is_empty home)
    then home
    else dir

unfoldable pub path_dirs_of : Host → List Text
unfolding expand_home split_colon
path_dirs_of h =
    if is_empty h.path_env
    then []
    else map (expand_home (or_empty h.user_home_dir)) (split_colon h.path_env)

module _ (os : Os) where
  open os use {State}

  abbrev entry_of : Text → Result Failure (List DirChild) → PathDirEntry
  entry_of path (err e) = record { path = path; children = none; error = error_text e }
  entry_of path (ok children) = record { path = path; children = some children; error = [] }

  -- The listings of the directories of PATH, each at its own index.
  list_dirs : List Text → Io State Failure (List PathDirEntry)
  unfolding read_dir_with_types error_text
  list_dirs [] = pure []
  list_dirs (path ∷ paths) = do
    r ← outcome {E = Failure} (read_dir_with_types os path)
    rest ← list_dirs paths
    pure (entry_of path r ∷ rest)

  -- init
  unfoldable pub init : Host → Io State Failure InitResult
  unfolding list_dirs path_dirs_of
  init h = do
    dirs ← list_dirs (path_dirs_of h)
    pure (record { sys_info = sys_info_of h (path_dirs_of h); path_dirs = dirs })
