-- ===== src/Session/Files.antt =====
-- Open files, their stored state, and what a failed Unwatch leaves: server/server/jsonrpc.go.
use flit_el.Prelude.{
  ℕ, ◌≤◌, ◌≡◌, refl, ap, ◌∙◌, Bool, true, false, some, arith, Text, text_eq, ◌==◌, ==_self,
  if◌then◌else◌,
}
use flit_el.Prelude.GoMap.{lookup, erase, lookup-insert}
use flit_el.Prelude.Int64.{ℤ}
use flit_el.Watcher.Interface.{Fsnotify}
use flit_el.Watcher.{W, unwatch as watcher_unwatch}
use flit_el.Watcher.Counts.{Holds, unwatch_last_flag}
use flit_el.Watcher.Direct.{refs, refs-unwatch}
use flit_el.Session.{
  WatchMeta, S, open_watched, unwatch_watched, drop_watched, mark_open, change_meta,
  update_file_state, open_file, close_file, get_file_state, should_rich_fetch, state_of,
}
use flit_el.Session.Owned.{refs_in}

module _ (n : Fsnotify) where
  -- UpdateFileState sets what GetFileState then returns for a path that is watched, and changes
  -- nothing for another path.
  pub update_file_state_stored :
      (p q : Text) (mtime size : ℤ) (sess : S n) (m : WatchMeta)
      → lookup p sess.watched_paths ≡ some m
      → get_file_state n q (update_file_state n p mtime size sess)
        ≡ (if p == q then (mtime, size, true) else get_file_state n q sess)
  unfolding update_file_state change_meta get_file_state
  update_file_state_stored p q mtime size sess m h =
      rw (h, change_meta)
        (ap (state_of n)
            (lookup-insert p q (record m { mtime = mtime; size = size }) sess.watched_paths)
          ∙ cases (p == q))
    where
      cases :
          (b : Bool)
          → state_of n (
              if b
              then some (record m { mtime = mtime; size = size })
              else lookup q sess.watched_paths)
            ≡ (if b then (mtime, size, true) else state_of n (lookup q sess.watched_paths))
      cases true = refl
      cases false = refl

  -- Once a directory's entries are to be fetched, no later call says so again, whatever its limit;
  -- and a directory with more children than the limit is never fetched.
  pub rich_fetch_once :
      (p : Text) (k limit k' limit' : ℕ) (sess : S n)
      → (should_rich_fetch n p k limit sess).0 ≡ true
      → (k ≤ limit)
        × ((should_rich_fetch n p k' limit' (should_rich_fetch n p k limit sess).1).0 ≡ false)
  unfolding should_rich_fetch
  rich_fetch_once p k limit k' limit' sess h =
      (ground arith, ground (arith, lookup-insert p p true sess.rich_fetched, ==_self p))

  failed_unwatch :
      (p : Text) (mtime size : ℤ) (sess : S n) (m : WatchMeta) (r : Bool × W n)
      → lookup p sess.watched_paths ≡ some m
      → r.0 ≡ false
      → refs n p r.1 ≡ 0
      → (let closed = drop_watched n p sess r in
          let opened = open_watched n p mtime size closed.1 closed.1.watcher in
          (closed.0 ≡ false) × (opened.0 ≡ true) × (refs_in n p opened.1.watcher ≡ 0))
  unfolding drop_watched open_watched update_file_state change_meta mark_open
  failed_unwatch p mtime size sess m (true, w) h f z = cc f
  failed_unwatch p mtime size sess m (false, w) h f z = rw (h, change_meta) (refl, refl, z)

  -- When fsnotify returns an error on removing a watch, CloseFile returns an error and keeps the
  -- path among the watched paths, though the watcher has dropped it; OpenFile then succeeds and does
  -- not watch the path again.
  pub reopened_unwatched :
      (p : Text) (mtime size : ℤ) (sess : S n) (w : W n) (m : WatchMeta)
      → sess.watcher ≡ some w
      → lookup p sess.watched_paths ≡ some m
      → Holds n p 1 w
      → (n.remove p w.fs).0 ≡ false
      → (let closed = close_file n p sess in
          let opened = open_file n p mtime size closed.1 in
          (closed.0 ≡ false) × (opened.0 ≡ true) × (refs_in n p opened.1.watcher ≡ 0))
  unfolding close_file open_file unwatch_watched
  reopened_unwatched p mtime size sess w m e h k f =
      rw (e, h)
        (failed_unwatch p mtime size (record sess { open_files = erase p sess.open_files }) m
          (watcher_unwatch n p w) h (unwatch_last_flag n p w k ∙ f)
          (refs-unwatch n p p w ∙ rw (k.0, ==_self p) refl))
