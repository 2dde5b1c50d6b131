-- ===== src/FsHandler/Types.antt =====
-- The params and results of the fs/* requests: server/fs/handler.go. A `[]byte` or a pointer that may
-- be nil is an Option. An expected modification time, a float64, is in thousandths of a second.
use flit_el.Prelude.{
  ℕ, Bool, true, false, Option, none, List, [], ◌∷◌, Text, Bytes, text_eq, is_empty, ◌==◌, not,
  ◌&&◌, if◌then◌else◌,
}
use flit_el.Prelude.Int64.{ℤ, pos}

-- The strings "", "file", "directory", "symlink" and "other".
pub data FileType : Type 0 where
  no_type : FileType
  file : FileType
  directory : FileType
  symlink : FileType
  other : FileType

abbrev pub is_file : FileType → Bool
is_file file = true
is_file _ = false

abbrev pub is_directory : FileType → Bool
is_directory directory = true
is_directory _ = false

abbrev pub is_symlink : FileType → Bool
is_symlink symlink = true
is_symlink _ = false

-- What setStatFields and setSyscallFields set, in StatResult and in InfoResult.
pub record StatFields : Type 0 where
  pub size : ℤ
  pub mtime : ℤ
  pub mode : ℕ
  pub typ : FileType
  pub is_dir : Bool
  pub target : Text

pub record SyscallFields : Type 0 where
  pub uid : ℕ
  pub gid : ℕ
  pub user : Text
  pub group : Text
  pub nlink : ℕ
  pub atime : ℤ

abbrev pub no_stat_fields : StatFields
no_stat_fields = record {
  size = pos 0;
  mtime = pos 0;
  mode = 0;
  typ = no_type;
  is_dir = false;
  target = [];
}

abbrev pub no_syscall_fields : SyscallFields
no_syscall_fields = record { uid = 0; gid = 0; user = []; group = []; nlink = 0; atime = pos 0 }

-- StatResult
pub record StatResult : Type 0 where
  pub fields : StatFields
  pub sys : SyscallFields

-- DirChild
pub record DirChild : Type 0 where
  pub name : Text
  pub is_dir : Bool

-- InfoResult
pub record InfoResult : Type 0 where
  pub exists : Bool
  pub path : Text
  pub realpath : Text
  pub fields : StatFields
  pub sys : SyscallFields
  pub content : Option Bytes
  pub children : Option (List DirChild)
  pub parent_watched : Bool
  pub no_cache : Bool

-- &InfoResult{Path: path}
abbrev pub info_of_path : Text → InfoResult
info_of_path path = record {
  exists = false;
  path = path;
  realpath = [];
  fields = no_stat_fields;
  sys = no_syscall_fields;
  content = none;
  children = none;
  parent_watched = false;
  no_cache = false;
}

-- CacheEntry
pub record CacheEntry : Type 0 where
  pub path : Text
  pub info : InfoResult

-- InfoResponse
pub record InfoResponse : Type 0 where
  pub info : InfoResult
  pub cache : List CacheEntry

-- BuildCacheEntries, on an info that is not nil
unfoldable pub build_cache_entries : InfoResult → List CacheEntry
build_cache_entries info =
    record { path = info.path; info = info }
    ∷ (if not (is_empty info.realpath) && not (info.realpath == info.path)
        then record { path = info.realpath; info = info } ∷ []
        else [])

-- ReadResult, and the content that is sent beside it
pub record ReadResult : Type 0 where
  pub stat : InfoResult
  pub payload : Bytes

-- WriteParams
pub record WriteParams : Type 0 where
  pub path : Text
  pub content : Bytes
  pub mode : ℕ
  pub append : Bool
  pub expected_mtime : Option ℤ
  pub expect_not_exist : Bool
  pub force : Bool

-- The two results of Write: WriteMismatchResult and InfoResponse.
pub data WriteResult : Type 0 where
  mismatch : Option InfoResult → WriteResult
  written : InfoResponse → WriteResult

pub record MkdirParams : Type 0 where
  pub path : Text
  pub mode : ℕ

pub record DeleteParams : Type 0 where
  pub path : Text
  pub recursive : Bool

pub record RenameParams : Type 0 where
  pub old_path : Text
  pub new_path : Text

pub record CopyParams : Type 0 where
  pub src : Text
  pub dest : Text
  pub mode : ℕ

pub record ChmodParams : Type 0 where
  pub path : Text
  pub mode : ℕ

pub record TouchParams : Type 0 where
  pub path : Text
  pub mtime : ℤ
  pub atime : ℤ

-- BatchResult; `errors` is the list of its map's entries
pub record BatchResult : Type 0 where
  pub cache : List CacheEntry
  pub errors : List (Text × Text)

pub record CopyDirParams : Type 0 where
  pub src : Text
  pub dest : Text
  pub keep_time : Bool
  pub preserve_links : Bool

-- CopyDirResult
pub record CopyDirResult : Type 0 where
  pub files_copied : ℕ
  pub dirs_copied : ℕ
  pub bytes_copied : ℕ
