-- ===== src/Session.antt =====
-- server/server/jsonrpc.go: the paths that a Session watches, its open files and its listings.
-- Each method holds `watchedMu` while it changes the state, so each is one step. What os.Lstat and
-- os.Stat say is an argument. Log output is left out.
pub mod Owned
pub mod Files
mod Tests
use flit_el.Prelude.{
  ℕ, ◌≡◌, Bool, true, false, Option, none, some, List, [], ◌∷◌, Text, codes, text_eq, length, take,
  ◌-◌, has_prefix, ltb, ◌==◌, ◌&&◌, ◌||◌, if◌then◌else◌,
}
use flit_el.Prelude.GoMap.{GoMap, lookup, insert, erase}
use flit_el.Prelude.Int64.{ℤ, pos}
use flit_el.Watcher.Interface.{Fsnotify}
use flit_el.Watcher.{
  Watcher, W, clear_pending, watch_pending, watch as watcher_watch,
  watch_file as watcher_watch_file, watch_dir as watcher_watch_dir, unwatch as watcher_unwatch,
}

pub record WatchMeta : Type 0 where
  pub listed : Bool
  pub mtime : ℤ
  pub size : ℤ

-- Session; `watcher` is none where it is nil.
pub record Session (F : Type 0) : Type 0 where
  pub watcher : Option (Watcher F)
  pub watched_paths : GoMap Text WatchMeta
  pub open_files : GoMap Text Bool
  pub rich_fetched : GoMap Text Bool

-- &WatchMeta{}
abbrev pub no_meta : WatchMeta
no_meta = record { listed = false; mtime = pos 0; size = pos 0 }

abbrev pub is_some : Option WatchMeta → Bool
is_some none = false
is_some (some m) = true

-- A missing key of a `map[string]bool` reads as false.
abbrev pub bool_or_false : Option Bool → Bool
bool_or_false none = false
bool_or_false (some b) = b

-- noWatchPrefixes
abbrev no_watch_prefixes : List Text
no_watch_prefixes = codes "/tmp/" ∷ codes "/dev/" ∷ codes "/proc/" ∷ codes "/sys/" ∷ []

unfoldable is_under_any : List Text → Text → Bool
is_under_any [] path = false
is_under_any (prefix ∷ ps) path =
    let rest = is_under_any ps path in
    if has_prefix path prefix || (path == take (length prefix - 1) prefix) then true else rest

-- isNoWatchPath
unfoldable pub is_no_watch_path : Text → Bool
unfolding is_under_any
is_no_watch_path path = is_under_any no_watch_prefixes path

module _ (n : Fsnotify) where
  open n use {State}

  abbrev pub S : Type 0
  S = Session State

  -- NewSession, after its watcher has been created
  unfoldable pub new_session : Option (W n) → S
  new_session w = record { watcher = w; watched_paths = []; open_files = []; rich_fetched = [] }

  -- What follows a call of the watcher's Watch.
  pub keep_watched : Text → WatchMeta → S → Bool × W n → Bool × S
  keep_watched path meta sess (true, w) =
      (true, record sess { watcher = some w; watched_paths = insert path meta sess.watched_paths })
  keep_watched path meta sess (false, w) = (false, record sess { watcher = some w })

  watch_once : (Text → W n → Bool × W n) → Text → S → Option (W n) → Bool × S
  unfolding keep_watched
  watch_once f path sess none = (false, sess)
  watch_once f path sess (some w) =
      if is_some (lookup path sess.watched_paths)
      then (true, sess)
      else keep_watched path no_meta sess (f path w)

  -- Watch; false where it returns an error
  unfoldable pub watch : Text → S → Bool × S
  unfolding watch_once
  watch path sess = watch_once (watcher_watch n) path sess sess.watcher

  watch_allowed : (Text → W n → Bool × W n) → Text → S → Option (W n) → Bool × S
  unfolding watch_once
  watch_allowed f path sess none = (false, sess)
  watch_allowed f path sess (some w) =
      if is_no_watch_path path then (true, sess) else watch_once f path sess (some w)

  -- WatchFile
  unfoldable pub watch_file : Text → S → Bool × S
  unfolding watch_allowed
  watch_file path sess = watch_allowed (watcher_watch_file n) path sess sess.watcher

  -- WatchDir
  unfoldable pub watch_dir : Text → S → Bool × S
  unfolding watch_allowed
  watch_dir path sess = watch_allowed (watcher_watch_dir n) path sess sess.watcher

  -- `sess.watcher.WatchPending(ancestor, filePath)`
  register_pending : Text → Text → Bool × S → Bool × S
  register_pending ancestor path (true, sess) = (
    true,
    record sess {
      watcher = elim sess.watcher [ none ↦ none | some w ↦ some (watch_pending n ancestor path w) ];
    },
  )
  register_pending ancestor path (false, sess) = (false, sess)

  -- WatchPendingFile after its walk has found the ancestor
  unfoldable pub watch_pending_under : Text → Text → S → Bool × S
  unfolding watch_once register_pending
  watch_pending_under ancestor path sess =
      register_pending ancestor path (watch_once (watcher_watch_dir n) ancestor sess sess.watcher)

  drop_watched : Text → S → Bool × W n → Bool × S
  drop_watched path sess (true, w) =
      (true, record sess { watcher = some w; watched_paths = erase path sess.watched_paths })
  drop_watched path sess (false, w) = (false, record sess { watcher = some w })

  unwatch_watched : Text → S → Option (W n) → Bool × S
  unfolding drop_watched
  unwatch_watched path sess none = (true, sess)
  unwatch_watched path sess (some w) =
      if is_some (lookup path sess.watched_paths)
      then drop_watched path sess (watcher_unwatch n path w)
      else (true, sess)

  -- Unwatch
  unfoldable pub unwatch : Text → S → Bool × S
  unfolding unwatch_watched
  unwatch path sess = unwatch_watched path sess sess.watcher

  -- A field of the entry is set through the pointer; nothing where there is no entry.
  unfoldable pub change_meta : (WatchMeta → WatchMeta) → Text → S → S
  change_meta f path sess = elim (lookup path sess.watched_paths) [
    | none ↦ sess
    | some m ↦ record sess { watched_paths = insert path (f m) sess.watched_paths }
  ]

  -- UpdateFileState
  unfoldable pub update_file_state : Text → ℤ → ℤ → S → S
  unfolding change_meta
  update_file_state path mtime size sess =
      change_meta (λ m. record m { mtime = mtime; size = size }) path sess

  mark_open : Text → S → S
  mark_open path sess = record sess { open_files = insert path true sess.open_files }

  open_watched : Text → ℤ → ℤ → S → Option (W n) → Bool × S
  unfolding keep_watched update_file_state mark_open
  open_watched path mtime size sess none = (false, sess)
  open_watched path mtime size sess (some w) =
      let sess' = mark_open path sess in
      if is_some (lookup path sess.watched_paths)
      then (true, update_file_state path mtime size sess')
      else keep_watched path (record no_meta { mtime = mtime; size = size }) sess'
          (watcher_watch_file n path w)

  -- OpenFile, with what Lstat says of the file, and zeros where it is an error
  unfoldable pub open_file : Text → ℤ → ℤ → S → Bool × S
  unfolding open_watched
  open_file path mtime size sess = open_watched path mtime size sess sess.watcher

  -- CloseFile
  unfoldable pub close_file : Text → S → Bool × S
  unfolding unwatch_watched
  close_file path sess =
      unwatch_watched path (record sess { open_files = erase path sess.open_files }) sess.watcher

  abbrev state_of : Option WatchMeta → ℤ × ℤ × Bool
  state_of none = (pos 0, pos 0, false)
  state_of (some m) = (m.mtime, m.size, true)

  -- GetFileState
  unfoldable pub get_file_state : Text → S → ℤ × ℤ × Bool
  get_file_state path sess = state_of (lookup path sess.watched_paths)

  -- IsFileOpen
  unfoldable pub is_file_open : Text → S → Bool
  is_file_open path sess = bool_or_false (lookup path sess.open_files)

  -- MarkDirListed
  unfoldable pub mark_dir_listed : Text → S → S
  unfolding change_meta
  mark_dir_listed path sess = change_meta (λ m. record m { listed = true }) path sess

  abbrev listed_of : Option WatchMeta → Bool
  listed_of none = false
  listed_of (some m) = m.listed

  -- IsDirListed
  unfoldable pub is_dir_listed : Text → S → Bool
  is_dir_listed path sess = listed_of (lookup path sess.watched_paths)

  -- shouldRichFetch
  unfoldable pub should_rich_fetch : Text → ℕ → ℕ → S → Bool × S
  should_rich_fetch path num_children limit sess =
      if bool_or_false (lookup path sess.rich_fetched)
      then (false, sess)
      else if ltb limit num_children
      then (false, sess)
      else (true, record sess { rich_fetched = insert path true sess.rich_fetched })

  -- `for path := range sess.watchedPaths { sess.watcher.Unwatch(path) }`, errors ignored
  unfoldable pub unwatch_all : GoMap Text WatchMeta → W n → W n
  unwatch_all [] w = w
  unwatch_all ((path, m) ∷ ps) w = unwatch_all ps (watcher_unwatch n path w).1

  -- ClearCacheState
  unfoldable pub clear_cache_state : S → S
  unfolding unwatch_all
  clear_cache_state sess = record {
    watcher = elim sess.watcher [
      | none ↦ none
      | some w ↦ some (clear_pending n (unwatch_all sess.watched_paths w))
    ];
    watched_paths = [];
    open_files = [];
    rich_fetched = [];
  }
