-- ===== src/Notices/Pending.antt =====
-- WatchPendingFile and Close: server/server/jsonrpc.go.
use flit_el.Prelude.{
  ℕ, zero, suc, Bool, true, false, Option, none, some, Text, text_eq, length, ◌==◌, if◌then◌else◌,
}
use flit_el.Prelude.Results.{Result, ok, err}
use flit_el.Filepath.{dir, dot_text}
use flit_el.Watcher.Interface.{Fsnotify}
use flit_el.Session.{is_no_watch_path, watch_pending_under}
use flit_el.FsHandler.Os.{Os, OsError, FileInfo}
use flit_el.FsHandler.Stat.{is_dir_kind}
use flit_el.Notices.World.{ask, in_sess}
use flit_el.Notices.Changes.{Here}
use flit_el.Notices.Prefetch.{is_top}

module _ (n : Fsnotify) (os : Os) where
  abbrev pub is_directory_there : Result OsError FileInfo → Bool
  is_directory_there (err e) = false
  is_directory_there (ok i) = is_dir_kind i.kind

  -- The closest ancestor that is a directory, from `ancestor` up, or the top; with one round of fuel
  -- for each, and none where the fuel runs out.
  unfoldable pub find_ancestor : ℕ → Text → Here n os → Option Text × Here n os
  find_ancestor zero ancestor w = (none, w)
  find_ancestor (suc fuel) ancestor w = elim (is_top ancestor) [
    | true ↦ (some ancestor, w)
    | false ↦
        let (r, w') = ask (os.stat ancestor) w in
        elim (is_directory_there r) [
          | true ↦ (some ancestor, w')
          | false ↦ find_ancestor fuel (dir ancestor) w'
        ]
  ]

  register : Text → Option Text × Here n os → Bool × Here n os
  register path (none, w) = (false, w)
  register path (some ancestor, w) =
      if ancestor == dot_text then (false, w) else in_sess (watch_pending_under n ancestor path) w

  -- WatchPendingFile
  unfoldable pub watch_pending_file : Text → Here n os → Bool × Here n os
  unfolding find_ancestor register
  watch_pending_file path w = elim w.sess.watcher [
    | none ↦ (false, w)
    | some _ ↦
        if is_no_watch_path path
        then (false, w)
        else register path (find_ancestor (suc (length path)) (dir path) w)
  ]
