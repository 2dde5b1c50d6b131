-- ===== src/Notices/Changes.antt =====
-- The callback of InitWatcher, and what follows an EdenFS checkout: server/server/jsonrpc.go.
use flit_el.Prelude.{
  Bool, true, false, none, List, [], ◌∷◌, ◌++◌, Text, codes, text_eq, has_prefix, ◌==◌, ◌&&◌, ◌||◌,
  not, if◌then◌else◌,
}
use flit_el.Prelude.GoMap.{GoMap}
use flit_el.Prelude.Results.{Result, ok, err}
use flit_el.Prelude.Int64.{ℤ, int_eq, int_ltb}
use flit_el.Watcher.{EventType, modified, deleted, WatchEvent}
use flit_el.Watcher.Interface.{Fsnotify}
use flit_el.Session.{WatchMeta, get_file_state, update_file_state, is_dir_listed, is_file_open}
use flit_el.FsHandler.Os.{Os, OsError, FileInfo}
use flit_el.FsHandler.Io.{Failure}
use flit_el.FsHandler.Types.{InfoResult, build_cache_entries}
use flit_el.FsHandler.Stat.{is_dir_kind, is_not_exist}
use flit_el.FsHandler.Info.{get_info, get_info_no_content}
use flit_el.Notices.World.{changed, World, send, ask, with_sess}

abbrev pub is_modified : EventType → Bool
is_modified modified = true
is_modified _ = false

abbrev pub is_deleted : EventType → Bool
is_deleted deleted = true
is_deleted _ = false

-- Older than what is stored, or the same.
unfoldable pub is_stale : FileInfo → ℤ → ℤ → Bool
is_stale i mtime size =
    int_ltb i.mod_time.sec mtime || ((i.mod_time.sec == mtime) && (i.size == size))

module _ (n : Fsnotify) (os : Os) where
  -- The world of a session over `n` and `os`.
  abbrev pub Here : Type 0
  Here = World n.State os.State

  unfoldable pub after_lstat : Text → ℤ → ℤ → Result OsError FileInfo × Here → Bool × Here
  unfolding is_stale
  after_lstat path mtime size (err e, w) = (false, w)
  after_lstat path mtime size (ok i, w) =
      if is_stale i mtime size
      then (true, w)
      else (false, with_sess (update_file_state n path i.mod_time.sec i.size) w)

  unfoldable pub compare_stored : Text → ℤ × ℤ × Bool → Here → Bool × Here
  unfolding after_lstat
  compare_stored path (mtime, size, false) w = (false, w)
  compare_stored path (mtime, size, true) w = after_lstat path mtime size (ask (os.lstat path) w)

  -- The check of a "modified" event; true where the event is suppressed.
  unfoldable pub check_modified : WatchEvent → Here → Bool × Here
  unfolding compare_stored
  check_modified event w =
      if is_modified event.type
      then compare_stored event.path (get_file_state n event.path w.sess) w
      else (false, w)

  -- A notification of a deletion, which needs no info.
  unfoldable pub deleted_only : WatchEvent → Here → Here
  deleted_only event w =
      if is_deleted event.type then send (changed event.path event.type [] none) w else w

  unfoldable pub send_info : WatchEvent → Result Failure InfoResult × Here → Here
  unfolding deleted_only build_cache_entries send
  send_info event (err e, w) = deleted_only event w
  send_info event (ok info, w) =
      if info.exists
      then send (changed event.path event.type (build_cache_entries info) none) w
      else deleted_only event w

  -- The info of the path: with its content, or not.
  unfoldable pub fetch_info : WatchEvent → Here → Result Failure InfoResult × Here
  unfolding get_info get_info_no_content
  fetch_info event w =
      if is_modified event.type || is_dir_listed n event.path w.sess
      then ask (get_info os event.path) w
      else ask (get_info_no_content os event.path) w

  unfoldable pub after_check : WatchEvent → Bool × Here → Here
  unfolding send_info fetch_info
  after_check event (true, w) = w
  after_check event (false, w) = send_info event (fetch_info event w)

  -- The function that InitWatcher passes to fs.NewWatcher.
  unfoldable pub on_watch_event : WatchEvent → Here → Here
  unfolding check_modified after_check
  on_watch_event event w = if w.notifying then after_check event (check_modified event w) else w

  send_changed : Text → EventType → Result Failure InfoResult × Here → Here
  unfolding build_cache_entries send
  send_changed path type (err e, w) =
      if is_deleted type then send (changed path type [] none) w else w
  send_changed path type (ok info, w) =
      if is_deleted type
      then send (changed path type [] none) w
      else send
          (changed path type (build_cache_entries (record info { content = none })) info.content) w

  -- sendFileChangedNotification
  unfoldable pub send_file_changed_notification : Text → EventType → Here → Here
  unfolding send_changed get_info get_info_no_content
  send_file_changed_notification path type w =
      if not w.notifying
      then w
      else if is_modified type && is_file_open n path w.sess
      then send_changed path type (ask (get_info os path) w)
      else if is_modified type && is_dir_listed n path w.sess
      then send_changed path type (ask (get_info os path) w)
      else send_changed path type (ask (get_info_no_content os path) w)

  -- The watched paths that lie in the checkout.
  under_root : Text → GoMap Text WatchMeta → List Text
  under_root root [] = []
  under_root root ((path, m) ∷ ps) =
      let rest = under_root root ps in
      if has_prefix path (root ++ codes "/") || (path == root) then path ∷ rest else rest

  compare_checkout : Text → FileInfo → ℤ × ℤ × Bool → Here → Here
  unfolding send_file_changed_notification
  compare_checkout path i (mtime, size, false) w = w
  compare_checkout path i (mtime, size, true) w =
      if not (i.mod_time.sec == mtime) || (not (is_dir_kind i.kind) && not (i.size == size))
      then send_file_changed_notification path modified
          (with_sess (update_file_state n path i.mod_time.sec i.size) w)
      else w

  check_path : Text → Result OsError FileInfo × Here → Here
  unfolding compare_checkout send_file_changed_notification
  check_path path (err e, w) =
      if is_not_exist e.kind then send_file_changed_notification path deleted w else w
  check_path path (ok i, w) = compare_checkout path i (get_file_state n path w.sess) w

  unfoldable pub check_paths : List Text → Here → Here
  unfolding check_path
  check_paths [] w = w
  check_paths (path ∷ paths) w = check_paths paths (check_path path (ask (os.lstat path) w))

  -- handleEdenCheckout
  unfoldable pub handle_eden_checkout : Text → Here → Here
  unfolding under_root check_paths
  handle_eden_checkout root w = check_paths (under_root root w.sess.watched_paths) w
