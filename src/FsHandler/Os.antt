-- ===== src/FsHandler/Os.antt =====
-- The operations of package os and package os/user, and filepath.EvalSymlinks, that
-- server/fs/handler.go calls. Each may change the state of the system, also one that only reads:
-- other processes write files at the same time.
use flit_el.Prelude.{ℕ, Option, List, Text, Bytes}
use flit_el.Prelude.Results.{Result}
use flit_el.Prelude.Int64.{ℤ}

-- What os.IsNotExist, os.IsPermission and os.IsExist tell apart.
pub data ErrorKind : Type 0 where
  not_exist : ErrorKind
  permission : ErrorKind
  exist : ErrorKind
  other_kind : ErrorKind

-- An error of the system, with the text of its Error method.
pub record OsError : Type 0 where
  pub kind : ErrorKind
  pub text : Text

-- The type bits of a FileMode: IsDir, IsRegular, ModeSymlink, or any other.
pub data FileKind : Type 0 where
  dir_kind : FileKind
  regular_kind : FileKind
  symlink_kind : FileKind
  special_kind : FileKind

-- time.Time, as seconds and nanoseconds since the epoch
pub record Time : Type 0 where
  pub sec : ℤ
  pub nsec : ℕ

-- What the handler reads of a syscall.Stat_t.
pub record SysStat : Type 0 where
  pub uid : ℕ
  pub gid : ℕ
  pub nlink : ℕ
  pub atim : ℤ

-- os.FileInfo; `sys` is none where Sys() is not a *syscall.Stat_t. The permission bits of the mode
-- are apart from its type.
pub record FileInfo : Type 0 where
  pub size : ℤ
  pub mod_time : Time
  pub perm : ℕ
  pub kind : FileKind
  pub sys : Option SysStat

-- os.DirEntry
pub record DirEntry : Type 0 where
  pub name : Text
  pub kind : FileKind

-- O_APPEND or O_TRUNC, beside O_WRONLY|O_CREATE
pub data OpenFlag : Type 0 where
  o_append : OpenFlag
  o_trunc : OpenFlag

-- A call of the system.
abbrev pub Call : Type 0 → Type 0 → Type 0
Call State A = State → Result OsError A × State

pub record Os : Type 1 where
  pub State : Type 0
  pub File : Type 0
  pub lstat : Text → Call State FileInfo
  pub stat : Text → Call State FileInfo
  pub readlink : Text → Call State Text
  pub eval_symlinks : Text → Call State Text
  pub getwd : Call State Text
  pub read_file : Text → Call State Bytes
  pub read_dir : Text → Call State (List DirEntry)
  pub mkdir_all : Text → FileKind × ℕ → Call State (Unit {0})
  pub remove : Text → Call State (Unit {0})
  pub remove_all : Text → Call State (Unit {0})
  pub rename : Text → Text → Call State (Unit {0})
  pub chmod : Text → ℕ → Call State (Unit {0})
  pub chtimes : Text → Time → Time → Call State (Unit {0})
  pub symlink : Text → Text → Call State (Unit {0})
  pub open_read : Text → Call State File
  pub open_file : Text → OpenFlag → FileKind × ℕ → Call State File
  pub file_stat : File → Call State FileInfo
  pub file_write : File → Bytes → Call State (Unit {0})
  -- io.Copy(dest, src), with the count of bytes
  pub copy_file : File → File → Call State ℕ
  -- Close, whose error the handler ignores
  pub close_file : File → State → State
  pub user_name : Text → Option Text
  pub group_name : Text → Option Text
