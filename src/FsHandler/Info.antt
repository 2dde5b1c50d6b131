-- ===== src/FsHandler/Info.antt =====
-- fs/info and the three ways to get a path's info, and the listings: server/fs/handler.go. The
-- goroutines of a listing run here one after another, in the order in which they are started.
pub mod Quiet
pub mod Paths
use flit_el.Prelude.{
  ℕ, ◌+◌, ◌*◌, Bool, true, false, Option, none, some, List, [], ◌∷◌, ◌++◌, map, Text, Bytes, leb,
  is_empty, length, ltb, not, ◌&&◌, ◌||◌, ◌==◌, if◌then◌else◌,
}
use flit_el.Prelude.Results.{Result, ok, err}
use flit_el.Prelude.Int64.{ℤ, pos, negsuc, int_eq}
use flit_el.Filepath.{dir, base, join}
use flit_el.FsHandler.Os.{Os, OsError, FileInfo, FileKind, DirEntry, symlink_kind}
use flit_el.FsHandler.Io.{
  Io, Failure, rpc, raw, go_on, ◌>>=◌, ◌>>◌, pure, fail, checked, unchanged, attempt, outcome,
  decoded, file_error, resolve,
}
use flit_el.FsHandler.Types.{
  FileType, is_file, is_directory, is_symlink, StatFields, SyscallFields, DirChild, InfoResult,
  InfoResponse, CacheEntry, info_of_path, build_cache_entries,
}
use flit_el.FsHandler.Stat.{is_dir_kind, is_not_exist, or_empty, populate_stat_from_file_info}

abbrev pub max_content_size : ℕ
max_content_size = 1024 * 1024

abbrev pub max_entries_for_content_prefetch : ℕ
max_entries_for_content_prefetch = 10

abbrev pub max_entries_default : ℕ
max_entries_default = 1000

abbrev pub max_entries_explicit : ℕ
max_entries_explicit = 10000

-- size <= maxContentSize
abbrev at_most_max : ℤ → Bool
at_most_max (pos n) = leb n max_content_size
at_most_max (negsuc n) = true

abbrev is_dir_info : Option FileInfo → Bool
is_dir_info none = false
is_dir_info (some i) = is_dir_kind i.kind

abbrev pub is_symlink_kind : FileKind → Bool
is_symlink_kind symlink_kind = true
is_symlink_kind _ = false

-- The new time and size, where the time has changed since the first Lstat.
restat : InfoResult → Option FileInfo → InfoResult
restat r none = r
restat r (some info) =
    if info.mod_time.sec == r.fields.mtime
    then r
    else record r { fields = record r.fields { mtime = info.mod_time.sec; size = info.size } }

module _ (os : Os) where
  open os use {State}

  -- The child of one entry; a symlink is followed.
  dir_child : Text → DirEntry → Io State Failure DirChild
  dir_child dir_path entry = elim (is_symlink_kind entry.kind) [
    | true ↦ do
      info ← attempt (os.stat (join dir_path entry.name))
      pure (record { name = entry.name; is_dir = is_dir_info info })
    | false ↦ pure (record { name = entry.name; is_dir = is_dir_kind entry.kind })
  ]

  dir_children : Text → List DirEntry → Io State Failure (List DirChild)
  unfolding dir_child
  dir_children dir_path [] = pure []
  dir_children dir_path (entry ∷ entries) = do
    c ← dir_child dir_path entry
    cs ← dir_children dir_path entries
    pure (c ∷ cs)

  -- readDirWithTypes
  unfoldable pub read_dir_with_types : Text → Io State Failure (List DirChild)
  unfolding dir_children
  read_dir_with_types dir_path = do
    entries ← checked (os.read_dir dir_path)
    dir_children dir_path entries

  -- readDir
  unfoldable pub read_dir : Text → Io State Failure (List Text)
  read_dir path = do
    entries ← checked (os.read_dir path)
    pure (map (λ (e : DirEntry). e.name) entries)

  -- The info of a path that is missing: its realpath by way of its parent.
  missing_info : Text → Io State Failure InfoResult
  unfolding resolve
  missing_info path = do
    parent ← resolve os (dir path)
    pure (record (info_of_path path) {
      realpath = elim parent [ none ↦ [] | some abs ↦ join abs (base path) ];
    })

  -- The info of a path that exists, with its realpath.
  existing_info : Text → FileInfo → Io State Failure InfoResult
  unfolding populate_stat_from_file_info resolve
  existing_info path info = do
    f ← populate_stat_from_file_info os path info
    realpath ← resolve os path
    pure (record (info_of_path path) {
      exists = true;
      fields = f.0;
      sys = f.1;
      realpath = or_empty realpath;
    })

  with_content : InfoResult → Option Bytes → Io State Failure InfoResult
  unfolding restat
  with_content r none = pure r
  with_content r (some content) = do
    info ← attempt (os.lstat r.path)
    pure (restat (record r { content = some content }) info)

  -- The content of a regular file of at most maxContentSize bytes.
  add_content : InfoResult → Io State Failure InfoResult
  unfolding with_content
  add_content r = elim (is_file r.fields.typ && at_most_max r.fields.size) [
    | true ↦ attempt (os.read_file r.path) >>= with_content r
    | false ↦ pure r
  ]

  -- The children of a directory, or of a symlink to one.
  add_children : InfoResult → Io State Failure InfoResult
  unfolding read_dir_with_types
  add_children r =
      elim (is_directory r.fields.typ || (is_symlink r.fields.typ && r.fields.is_dir)) [
        | true ↦ do
          children ← attempt {F = Failure} (read_dir_with_types r.path)
          pure (record r { children = children })
        | false ↦ pure r
      ]

  -- Where Lstat returns an error.
  stat_failed :
      (OsError → Failure) → Io State Failure InfoResult → OsError → Io State Failure InfoResult
  stat_failed other missing e = elim (is_not_exist e.kind) [
    | true ↦ missing
    | false ↦ fail (other e)
  ]

  full_info : Text → Result OsError FileInfo → Io State Failure InfoResult
  unfolding missing_info existing_info add_content add_children stat_failed
  full_info path (err e) = stat_failed (λ e. rpc (file_error e)) (missing_info path) e
  full_info path (ok info) = do r ← existing_info path info; r' ← add_content r; add_children r'

  -- getInfo
  unfoldable pub get_info : Text → Io State Failure InfoResult
  unfolding full_info
  get_info path = outcome (os.lstat path) >>= full_info path

  basic_info : Text → Result OsError FileInfo → Io State Failure InfoResult
  unfolding existing_info stat_failed
  basic_info path (err e) = stat_failed raw (pure (info_of_path path)) e
  basic_info path (ok info) = existing_info path info

  -- getInfoNoContent
  unfoldable pub get_info_no_content : Text → Io State Failure InfoResult
  unfolding basic_info
  get_info_no_content path = outcome (os.lstat path) >>= basic_info path

  -- GetInfoWithEntries
  unfoldable pub get_info_with_entries : Text → Io State Failure InfoResult
  unfolding full_info
  get_info_with_entries path = outcome (os.lstat path) >>= full_info path

  abbrev response_of : InfoResult → InfoResponse
  response_of info = record { info = info; cache = build_cache_entries info }

  -- Info
  unfoldable pub info : Result Text Text → Io State Failure InfoResponse
  unfolding get_info build_cache_entries
  info params = do path ← decoded params; r ← get_info path; pure (response_of r)

  abbrev entries_of : Option InfoResult → List CacheEntry
  entries_of none = []
  entries_of (some info) = build_cache_entries info

  child_entries :
      (Text → Io State Failure InfoResult)
      → Text
      → List DirChild
      → Io State Failure (List CacheEntry)
  unfolding build_cache_entries
  child_entries get dir_path [] = pure []
  child_entries get dir_path (child ∷ children) = do
    info ← attempt {F = Failure} (get (join dir_path child.name))
    rest ← child_entries get dir_path children
    pure (entries_of info ++ rest)

  -- GetChildEntries
  unfoldable pub get_child_entries : Text → List DirChild → ℕ → Io State Failure (List CacheEntry)
  unfolding child_entries get_info get_info_no_content
  get_child_entries dir_path children max_entries =
      if is_empty children || ltb max_entries (length children)
      then pure []
      else if leb (length children) max_entries_for_content_prefetch
      then child_entries get_info dir_path children
      else child_entries get_info_no_content dir_path children
