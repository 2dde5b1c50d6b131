-- ===== src/FsHandler/Stat.antt =====
-- fs/stat, fs/read, fs/exists and fs/realpath, and the stat fields: server/fs/handler.go.
use flit_el.Prelude.{
  ℕ, zero, suc, ◌+◌, ◌/◌, ◌%◌, Bool, true, false, Option, none, some, [], ◌∷◌, Text, not, ltb,
  if◌then◌else◌,
}
use flit_el.Prelude.Int64.{ℤ, pos, negsuc}
use flit_el.Prelude.Results.{Result, ok, err}
use flit_el.FsHandler.Os.{
  Os, FileInfo, FileKind, SysStat, OsError, ErrorKind, not_exist, dir_kind, regular_kind,
  symlink_kind, special_kind,
}
use flit_el.FsHandler.Io.{
  Io, Failure, ◌>>=◌, pure, checked, attempt, outcome, decoded, abs, resolve,
}
use flit_el.FsHandler.Types.{
  FileType, file, directory, symlink, other, StatFields, SyscallFields, StatResult, ReadResult,
  info_of_path, no_syscall_fields,
}

-- The digits of n before those of `acc`, with one round of fuel for each digit.
unfoldable pub digits : ℕ → ℕ → Text → Text
digits zero n acc = acc
digits (suc fuel) n acc =
    let acc' = (48 + n % 10) ∷ acc in
    let rest = digits fuel (n / 10) acc' in if ltb n 10 then acc' else rest

-- strconv.FormatUint(n, 10) of a uint32, which has at most ten digits
unfoldable pub decimal : ℕ → Text
unfolding digits
decimal n = digits 10 n []

-- The verb %d, of an int64
unfoldable pub int_text : ℤ → Text
unfolding digits
int_text (pos n) = digits 19 n []
int_text (negsuc n) = 45 ∷ digits 19 (n + 1) []

abbrev pub is_dir_kind : FileKind → Bool
is_dir_kind dir_kind = true
is_dir_kind _ = false

abbrev pub is_not_exist : ErrorKind → Bool
is_not_exist not_exist = true
is_not_exist _ = false

abbrev pub or_empty : Option Text → Text
or_empty none = []
or_empty (some t) = t

abbrev pub or_text : Text → Option Text → Text
or_text t none = t
or_text t (some u) = u

-- Whether the target is a directory, where os.Stat succeeds.
abbrev is_dir_or : Bool → Option FileInfo → Bool
is_dir_or b none = b
is_dir_or b (some i) = is_dir_kind i.kind

module _ (os : Os) where
  open os use {State}

  -- lookupUser
  unfoldable pub lookup_user : ℕ → Text
  unfolding decimal
  lookup_user uid = or_text (decimal uid) (os.user_name (decimal uid))

  -- lookupGroup
  unfoldable pub lookup_group : ℕ → Text
  unfolding decimal
  lookup_group gid = or_text (decimal gid) (os.group_name (decimal gid))

  unfoldable pub type_of_kind : FileKind → Text → Io State Failure (FileType × Bool × Text)
  type_of_kind dir_kind path = pure (directory, true, [])
  type_of_kind regular_kind path = pure (file, false, [])
  type_of_kind symlink_kind path = do
    target ← attempt (os.readlink path)
    info ← attempt (os.stat path)
    pure (symlink, is_dir_or false info, or_empty target)
  type_of_kind special_kind path = pure (other, false, [])

  -- determineTypeAndIsDir
  unfoldable pub determine_type_and_is_dir :
      Text → FileInfo → Io State Failure (FileType × Bool × Text)
  unfolding type_of_kind
  determine_type_and_is_dir path info = type_of_kind info.kind path

  -- The fields that are set where Sys() is a *syscall.Stat_t.
  syscall_fields : Option SysStat → SyscallFields
  unfolding lookup_user lookup_group
  syscall_fields none = no_syscall_fields
  syscall_fields (some s) = record {
    uid = s.uid;
    gid = s.gid;
    user = lookup_user s.uid;
    group = lookup_group s.gid;
    nlink = s.nlink;
    atime = s.atim;
  }

  -- populateStatFromFileInfo
  unfoldable pub populate_stat_from_file_info :
      Text → FileInfo → Io State Failure (StatFields × SyscallFields)
  unfolding determine_type_and_is_dir syscall_fields
  populate_stat_from_file_info path info = do
    t ← determine_type_and_is_dir path info
    pure (
      record {
        size = info.size;
        mtime = info.mod_time.sec;
        mode = info.perm;
        typ = t.0;
        is_dir = t.1;
        target = t.2;
      },
      syscall_fields info.sys,
    )

  -- Stat
  unfoldable pub stat : Result Text Text → Io State Failure StatResult
  unfolding populate_stat_from_file_info
  stat params = do
    path ← decoded params
    info ← checked (os.lstat path)
    f ← populate_stat_from_file_info path info
    pure (record { fields = f.0; sys = f.1 })

  -- Read
  unfoldable pub read : Result Text Text → Io State Failure ReadResult
  unfolding populate_stat_from_file_info resolve
  read params = do
    path ← decoded params
    content ← checked (os.read_file path)
    info ← checked (os.lstat path)
    f ← populate_stat_from_file_info path info
    realpath ← resolve os path
    pure (record {
      stat = record (info_of_path path) {
        exists = true;
        fields = f.0;
        sys = f.1;
        realpath = or_empty realpath;
      };
      payload = content;
    })

  abbrev not_missing : Result OsError FileInfo → Bool
  not_missing (ok i) = true
  not_missing (err e) = not (is_not_exist e.kind)

  -- Exists
  unfoldable pub exists : Result Text Text → Io State Failure Bool
  exists params = do path ← decoded params; info ← outcome (os.stat path); pure (not_missing info)

  -- Realpath
  unfoldable pub realpath : Result Text Text → Io State Failure Text
  unfolding abs
  realpath params = do
    path ← decoded params
    resolved ← checked (os.eval_symlinks path)
    checked (abs os resolved)
