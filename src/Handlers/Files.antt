-- ===== src/Handlers/Files.antt =====
-- The handlers of registerHandlers that work on the session: server/server/jsonrpc.go. Decoded
-- params are an argument, a `Result`; `touch` and the watch of EdenFS stand with the table of handlers.
use flit_el.Prelude.{
  ℕ, Bool, true, false, Option, none, some, List, [], ◌∷◌, ◌++◌, Text, Bytes, codes, length,
  if◌then◌else◌, ◌&&◌,
}
use flit_el.Prelude.Results.{Result, ok, err}
use flit_el.Prelude.Int64.{ℤ, pos}
use flit_el.Watcher.Interface.{Fsnotify}
use flit_el.Session.{
  update_file_state, watch, unwatch, watch_file, watch_dir, open_file, close_file, mark_dir_listed,
  clear_cache_state, is_no_watch_path,
}
use flit_el.FsHandler.Os.{Os, OsError, FileInfo}
use flit_el.FsHandler.Io.{Failure, plain}
use flit_el.FsHandler.Types.{
  InfoResult, InfoResponse, DirChild, WriteParams, WriteResult, written, mismatch, is_file,
  is_directory, build_cache_entries,
}
use flit_el.FsHandler.Info.{
  get_info, get_info_with_entries, max_entries_default, max_entries_explicit,
}
use flit_el.FsHandler.Write.{write, is_present}
use flit_el.FsHandler.Batch.{all_paths, keys}
use flit_el.Notices.World.{entry_info, send, ask, in_sess, with_sess}
use flit_el.Notices.Changes.{Here}
use flit_el.Notices.Prefetch.{async_fetch_child_entries, prefetch_ancestors}
use flit_el.Notices.Pending.{watch_pending_file}

module _ (n : Fsnotify) (os : Os) where
  -- A handler's answer, and the world after it.
  abbrev pub Answer : Type 0 → Type 0
  Answer A = Result Failure A × Here n os

  -- What the result of Write says of the file's state.
  unfoldable pub note_written : Result Failure WriteResult × Here n os → Answer WriteResult
  unfolding update_file_state
  note_written (ok (written r), w) = (
    ok (written r),
    with_sess (update_file_state n r.info.path r.info.fields.mtime r.info.fields.size) w,
  )
  note_written (ok (mismatch c), w) = (ok (mismatch c), w)
  note_written (err e, w) = (err e, w)

  -- fs/write, where the clock is at `now` seconds and `payload` is sent beside the params
  unfoldable pub fs_write : ℤ → Result Text WriteParams → Bytes → Here n os → Answer WriteResult
  unfolding note_written update_file_state write
  fs_write now (err t) payload w = (err (plain (codes "invalid params: " ++ t)), w)
  fs_write now (ok params) payload w =
      let p = record params { content = payload } in
      note_written
        (ask (write os p) (with_sess (update_file_state n p.path now (pos (length payload))) w))

  -- WatchDir and MarkDirListed, for a directory with children.
  watch_listed : Text → InfoResult → Here n os → Here n os
  unfolding watch_dir mark_dir_listed
  watch_listed path r w =
      let w' = (in_sess (watch_dir n path) w).1 in
      if is_present r.children then with_sess (mark_dir_listed n path) w' else w'

  watch_found : Text → InfoResult → Here n os → Here n os
  unfolding watch_file watch_listed
  watch_found path r w =
      if r.exists && is_file r.fields.typ
      then (in_sess (watch_file n path) w).1
      else if r.exists && is_directory r.fields.typ
      then watch_listed path r w
      else w

  watch_missing : Text → InfoResult → Here n os → InfoResult × Here n os
  unfolding watch_pending_file
  watch_missing path r w =
      if r.exists
      then (r, w)
      else let (watched, w') = watch_pending_file n os path w in
        (record r { parent_watched = watched }, w')

  fetch_listed : Text → ℕ → Option (List DirChild) → Here n os → Here n os
  unfolding async_fetch_child_entries
  fetch_listed path limit none w = w
  fetch_listed path limit (some children) w = async_fetch_child_entries n os path children limit w

  respond : Text → InfoResult → (Option Bytes × InfoResponse)
  unfolding build_cache_entries is_no_watch_path
  respond path r =
      let r' =
        if is_no_watch_path path
        then record r { no_cache = true; content = none }
        else record r { content = none } in
      (r.content, record { info = r'; cache = build_cache_entries r' })

  answer_info : Text → Result Failure InfoResult × Here n os → Answer (Option Bytes × InfoResponse)
  unfolding watch_found watch_missing fetch_listed respond
  answer_info path (err e, w) = (err e, w)
  answer_info path (ok r, w) =
      let (r', w') = watch_missing path r (watch_found path r w) in
      (ok (respond path r'), fetch_listed path max_entries_default r'.children w')

  -- fs/info, with the content that is sent beside its response
  unfoldable pub fs_info : Result Text Text → Here n os → Answer (Option Bytes × InfoResponse)
  unfolding answer_info get_info_with_entries
  fs_info (err t) w = (err (plain t), w)
  fs_info (ok path) w = answer_info path (ask (get_info_with_entries os path) w)

  answer_open_dir : Text → Result Failure InfoResult × Here n os → Answer InfoResponse
  unfolding watch_listed fetch_listed build_cache_entries
  answer_open_dir path (err e, w) = (err e, w)
  answer_open_dir path (ok r, w) =
      let w' = if r.exists && is_directory r.fields.typ then watch_listed path r w else w in
      (
        ok (record { info = r; cache = build_cache_entries r }),
        fetch_listed path max_entries_explicit r.children w',
      )

  -- fs/openDir
  unfoldable pub fs_open_dir : Text → Here n os → Answer InfoResponse
  unfolding answer_open_dir get_info_with_entries
  fs_open_dir path w = answer_open_dir path (ask (get_info_with_entries os path) w)

  -- The path, or an error where the method returned one, whose text is left out.
  abbrev path_or_error : Text → Bool × Here n os → Answer Text
  path_or_error path (true, w) = (ok path, w)
  path_or_error path (false, w) = (err (plain []), w)

  -- fs/watch
  unfoldable pub fs_watch : Text → Here n os → Answer Text
  unfolding watch
  fs_watch path w = path_or_error path (in_sess (watch n path) w)

  -- fs/unwatch, and fs/forget
  unfoldable pub fs_unwatch : Text → Here n os → Answer Text
  unfolding unwatch
  fs_unwatch path w = path_or_error path (in_sess (unwatch n path) w)

  -- The time and size that OpenFile stores, from its Lstat.
  abbrev lstat_state : Result OsError FileInfo → ℤ × ℤ
  lstat_state (err e) = (pos 0, pos 0)
  lstat_state (ok i) = (i.mod_time.sec, i.size)

  -- fs/open; the goroutine of PrefetchAncestors runs first.
  unfoldable pub fs_open : Text → Here n os → Answer Text
  unfolding prefetch_ancestors open_file
  fs_open path w =
      let (r, w') = ask (os.lstat path) (prefetch_ancestors n os path w) in
      path_or_error path (in_sess (open_file n path (lstat_state r).0 (lstat_state r).1) w')

  -- fs/close
  unfoldable pub fs_close : Text → Here n os → Answer Text
  unfolding close_file
  fs_close path w = path_or_error path (in_sess (close_file n path) w)

  -- session/clearCache
  unfoldable pub session_clear_cache : Here n os → Here n os
  unfolding clear_cache_state
  session_clear_cache w = with_sess (clear_cache_state n) w

  send_fetched : Text → Result Failure InfoResult × Here n os → Here n os
  unfolding send build_cache_entries
  send_fetched path (err e, w) = w
  send_fetched path (ok info, w) =
      send (entry_info path (build_cache_entries (record info { content = none })) info.content) w

  send_each : List Text → Here n os → Here n os
  unfolding send_fetched get_info
  send_each [] w = w
  send_each (path ∷ paths) w = send_each paths (send_fetched path (ask (get_info os path) w))

  -- fs/batch: the answer, and the goroutine that it starts
  unfoldable pub fs_batch : Result Text (List Text) → Here n os → Answer (Unit {0})
  unfolding send_each all_paths
  fs_batch (err t) w = (err (plain t), w)
  fs_batch (ok paths) w = (ok tt, send_each (keys (all_paths paths)) w)

-- The handlers of exec/* and tunnel/* call their manager unless it is nil.
unfoldable pub with_manager :
    {M A : Type 0} → Text → (M → Result Text A × M) → Option M → Result Text A × Option M
with_manager not_initialized f none = (err not_initialized, none)
with_manager not_initialized f (some m) = let r = f m in (r.0, some r.1)
