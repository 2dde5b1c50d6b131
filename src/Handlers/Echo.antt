-- ===== src/Handlers/Echo.antt =====
-- fs/write and the "modified" events that follow it: server/server/jsonrpc.go.
use flit_el.Prelude.{◌≡◌, ◌≢◌, refl, ◌∙◌, ap, true, some, Text, Bytes, text_eq, ==_self, length}
use flit_el.Prelude.GoMap.{lookup, lookup-insert}
use flit_el.Prelude.Results.{Result, ok, err}
use flit_el.Prelude.Int64.{ℤ, pos, int_eq, int_ltb}
use flit_el.Watcher.Interface.{Fsnotify}
use flit_el.Session.{WatchMeta, S, get_file_state, update_file_state, change_meta}
use flit_el.Session.Files.{update_file_state_stored}
use flit_el.FsHandler.Os.{Os, FileInfo}
use flit_el.FsHandler.Io.{Failure}
use flit_el.FsHandler.Types.{InfoResponse, WriteParams, WriteResult, written, mismatch}
use flit_el.FsHandler.Write.{write}
use flit_el.FsHandler.Write.Paths.{write-Yields_path}
use flit_el.Notices.World.{ask, with_sess}
use flit_el.Notices.Changes.{Here, is_stale, on_watch_event}
use flit_el.Notices.Once.{modified_event, seen, same-is_stale, stale_suppressed}
use flit_el.Handlers.Files.{note_written, fs_write}

module _ (n : Fsnotify) (os : Os) where
  update-lookup :
      (p : Text) (a b : ℤ) (sess : S n) (m : WatchMeta)
      → lookup p sess.watched_paths ≡ some m
      → lookup p (update_file_state n p a b sess).watched_paths
        ≡ some (record m { mtime = a; size = b })
  unfolding update_file_state change_meta
  update-lookup p a b sess m h =
      rw (h, change_meta)
        (lookup-insert p p (record m { mtime = a; size = b }) sess.watched_paths
          ∙ rw (==_self p) refl)

  update-state :
      (p : Text) (a b : ℤ) (sess : S n) (m : WatchMeta)
      → lookup p sess.watched_paths ≡ some m
      → get_file_state n p (update_file_state n p a b sess) ≡ (a, b, true)
  update-state p a b sess m h = update_file_state_stored n p p a b sess m h ∙ rw (==_self p) refl

  note_written_result :
      (r : InfoResponse) (a : Result Failure WriteResult × Here n os)
      → (note_written n os a).0 ≡ ok (written r)
      → (a.0 ≡ ok (written r))
        × ((note_written n os a).1
            ≡ with_sess
                (update_file_state n r.info.path r.info.fields.mtime r.info.fields.size)
                a.1)
  unfolding note_written
  note_written_result r (ok (written q), w) h = let e : q ≡ r = cc h in rw e (refl, refl)
  note_written_result r (ok (mismatch c), w) h = absurd (cc h)
  note_written_result r (err e, w) h = absurd (cc h)

  note_not_written :
      (a : Result Failure WriteResult × Here n os)
      → ((r : InfoResponse) → (note_written n os a).0 ≢ ok (written r))
      → (note_written n os a).1 ≡ a.1
  unfolding note_written
  note_not_written (ok (written q), w) h = absurd (h q refl)
  note_not_written (ok (mismatch c), w) h = refl
  note_not_written (err e, w) h = refl

  -- After an fs/write has written a watched path, a modified event for which Lstat shows the time and
  -- size that the answer has sends nothing.
  pub own_write_suppressed :
      (now : ℤ) (p : WriteParams) (payload : Bytes) (w : Here n os) (m : WatchMeta)
      (r : InfoResponse) (i : FileInfo)
      → lookup p.path w.sess.watched_paths ≡ some m
      → (let a = fs_write n os now (ok p) payload w in
          a.0 ≡ ok (written r)
          → seen n os p.path a.1 ≡ ok i
          → i.mod_time.sec ≡ r.info.fields.mtime
          → i.size ≡ r.info.fields.size
          → (on_watch_event n os (modified_event p.path) a.1).sent ≡ w.sent)
  unfolding fs_write
  own_write_suppressed now p payload w m r i l h k s z =
      let p' = record p { content = payload } in
      let asked =
        ask (write os p') (with_sess (update_file_state n p.path now (pos (length payload))) w) in
      let (e, w1) = note_written_result r asked h in
      let path : r.info.path ≡ p.path = (write-Yields_path os p').yielded w.sys _ e r refl in
      let stored : get_file_state n p.path (note_written n os asked).1.sess
          ≡ (r.info.fields.mtime, r.info.fields.size, true) =
        ap (λ (x : Here n os). get_file_state n p.path x.sess) w1
        ∙ rw path (
            update-state p.path r.info.fields.mtime r.info.fields.size
              (update_file_state n p.path now (pos (length payload)) w.sess) _
              (update-lookup p.path now (pos (length payload)) w.sess m l)) in
      (stale_suppressed n os p.path r.info.fields.mtime r.info.fields.size i
        (note_written n os asked).1 stored k (same-is_stale i _ _ s z)).0
      ∙ ap (λ (x : Here n os). x.sent) w1

  older-is_stale :
      (i : FileInfo) (mtime size : ℤ)
      → int_ltb i.mod_time.sec mtime ≡ true
      → is_stale i mtime size ≡ true
  unfolding is_stale
  older-is_stale i mtime size h = rw h refl

  -- After an fs/write of a watched path that has not written, a modified event sends nothing while
  -- Lstat shows a time before the request.
  pub failed_write_hides :
      (now : ℤ) (p : WriteParams) (payload : Bytes) (w : Here n os) (m : WatchMeta) (i : FileInfo)
      → lookup p.path w.sess.watched_paths ≡ some m
      → (let a = fs_write n os now (ok p) payload w in
          ((r : InfoResponse) → a.0 ≢ ok (written r))
          → seen n os p.path a.1 ≡ ok i
          → int_ltb i.mod_time.sec now ≡ true
          → (on_watch_event n os (modified_event p.path) a.1).sent ≡ w.sent)
  unfolding fs_write
  failed_write_hides now p payload w m i l h k older =
      let asked =
        ask (write os (record p { content = payload }))
          (with_sess (update_file_state n p.path now (pos (length payload))) w) in
      let same = note_not_written asked h in
      (stale_suppressed n os p.path now (pos (length payload)) i (note_written n os asked).1
        (ap (λ (x : Here n os). get_file_state n p.path x.sess) same
          ∙ update-state p.path now (pos (length payload)) w.sess m l)
        k (older-is_stale i now _ older)).0
      ∙ ap (λ (x : Here n os). x.sent) same
