-- ===== src/Notices/Once.antt =====
-- When a "modified" event is not passed on to the client: server/server/jsonrpc.go.
use flit_el.Prelude.{
  ◌≡◌, refl, ◌∙◌, ap, inl, inr, Bool, true, false, some, Text, text_eq, ==_self, Bool-cases, ◌||◌,
  if◌then◌else◌,
}
use flit_el.Prelude.GoMap.{lookup}
use flit_el.Prelude.Results.{Result, ok, err}
use flit_el.Prelude.Int64.{ℤ, int_eq, int_ltb}
use flit_el.Watcher.{modified, WatchEvent}
use flit_el.Watcher.Interface.{Fsnotify}
use flit_el.Session.{WatchMeta, get_file_state, update_file_state, is_dir_listed}
use flit_el.Session.Files.{update_file_state_stored}
use flit_el.FsHandler.Os.{Os, OsError, FileInfo}
use flit_el.FsHandler.Io.{Failure}
use flit_el.FsHandler.Types.{InfoResult}
use flit_el.Notices.World.{send, ask, with_sess}
use flit_el.Notices.Changes.{
  Here, is_stale, after_lstat, compare_stored, check_modified, send_info, fetch_info, after_check,
  deleted_only, on_watch_event, is_modified, is_deleted,
}

abbrev pub modified_event : Text → WatchEvent
modified_event path = record { path = path; type = modified }

pub same-is_stale :
    (i : FileInfo) (mtime size : ℤ)
    → i.mod_time.sec ≡ mtime
    → i.size ≡ size
    → is_stale i mtime size ≡ true
unfolding is_stale
same-is_stale i mtime size h k =
    rw (h, k) (rw (==_self mtime) (rw (==_self size) (last (int_ltb mtime mtime))))
  where
    last : (b : Bool) → (b || true) ≡ true
    last true = refl
    last false = refl

is_stale_of :
    (i j : FileInfo) (mtime size : ℤ)
    → j.mod_time.sec ≡ i.mod_time.sec
    → j.size ≡ i.size
    → is_stale i mtime size ≡ true
    → is_stale j mtime size ≡ true
unfolding is_stale
is_stale_of i j mtime size a b h = rw (a, b) h

choice_true : {A : Type 0} {b : Bool} (x y : A) → b ≡ true → (if b then x else y) ≡ x
choice_true x y h = rw h refl

both : {A : Type 0} (P : A → Type 0) (b : Bool) {x y : A} → P x → P y → P (if b then x else y)
both P true p q = p
both P false p q = q

module _ (n : Fsnotify) (os : Os) (path : Text) where
  stored :
      (w : Here n os) (m : WatchMeta)
      → lookup path w.sess.watched_paths ≡ some m
      → get_file_state n path w.sess ≡ (m.mtime, m.size, true)
  unfolding get_file_state
  stored w m l = rw l refl

  -- What Lstat says of the path in a world.
  abbrev pub seen : Here n os → Result OsError FileInfo
  seen w = (os.lstat path w.sys).0

  -- The check of an event of a watched path that Lstat finds.
  check-found :
      (mtime size : ℤ) (i : FileInfo) (w : Here n os)
      → get_file_state n path w.sess ≡ (mtime, size, true)
      → seen w ≡ ok i
      → check_modified n os (modified_event path) w
        ≡ after_lstat n os path mtime size (ok i, (ask (os.lstat path) w).1)
  unfolding check_modified compare_stored
  check-found mtime size i w h k =
      ap (λ (st : ℤ × ℤ × Bool). compare_stored n os path st w) h
      ∙ ap
          (λ (r : Result OsError FileInfo).
            after_lstat n os path mtime size (r, (ask (os.lstat path) w).1))
          k

  -- An event is suppressed where what is stored is not older.
  pub stale_suppressed :
      (mtime size : ℤ) (i : FileInfo) (w : Here n os)
      → get_file_state n path w.sess ≡ (mtime, size, true)
      → seen w ≡ ok i
      → is_stale i mtime size ≡ true
      → ((on_watch_event n os (modified_event path) w).sent ≡ w.sent)
        × ((on_watch_event n os (modified_event path) w).sess ≡ w.sess)
  unfolding on_watch_event after_lstat after_check
  stale_suppressed mtime size i w h k e =
      both (λ (x : Here n os). (x.sent ≡ w.sent) × (x.sess ≡ w.sess)) w.notifying
        (rw (check-found mtime size i w h k) (rw (e, after_lstat) (refl, refl))) (refl, refl)

  deleted_only-sess : (e : WatchEvent) (w : Here n os) → (deleted_only n os e w).sess ≡ w.sess
  unfolding deleted_only send
  deleted_only-sess e w = both (λ (x : Here n os). x.sess ≡ w.sess) (is_deleted e.type) refl refl

  -- Sending changes nothing in the session.
  send_info-sess :
      (e : WatchEvent) (r : Result Failure InfoResult × Here n os)
      → (send_info n os e r).sess ≡ r.1.sess
  unfolding send_info send
  send_info-sess e (err f, w) = deleted_only-sess e w
  send_info-sess e (ok info, w) =
      both (λ (x : Here n os). x.sess ≡ w.sess) info.exists refl (deleted_only-sess e w)

  fetch_info-sess : (e : WatchEvent) (w : Here n os) → (fetch_info n os e w).1.sess ≡ w.sess
  unfolding fetch_info
  fetch_info-sess e w =
      both (λ (x : Result Failure InfoResult × Here n os). x.1.sess ≡ w.sess)
        (is_modified e.type || is_dir_listed n e.path w.sess) refl refl

  -- An event that is not suppressed stores what Lstat says.
  fresh_stored :
      (mtime size : ℤ) (i : FileInfo) (w : Here n os) (m : WatchMeta)
      → w.notifying ≡ true
      → lookup path w.sess.watched_paths ≡ some m
      → get_file_state n path w.sess ≡ (mtime, size, true)
      → seen w ≡ ok i
      → is_stale i mtime size ≡ false
      → get_file_state n path (on_watch_event n os (modified_event path) w).sess
        ≡ (i.mod_time.sec, i.size, true)
  unfolding on_watch_event after_lstat after_check
  fresh_stored mtime size i w m t l h k e =
      let event = modified_event path in
      let w' =
        with_sess (update_file_state n path i.mod_time.sec i.size) (ask (os.lstat path) w).1 in
      let fresh : after_lstat n os path mtime size (ok i, (ask (os.lstat path) w).1) ≡ (false, w') =
        rw (e, after_lstat) refl in
      let passed : on_watch_event n os event w ≡ send_info n os event (fetch_info n os event w') =
        choice_true (after_check n os event (check_modified n os event w)) w t
        ∙ ap (after_check n os event) (check-found mtime size i w h k ∙ fresh) in
      ap (λ (x : Here n os). get_file_state n path x.sess) passed
      ∙ ap (get_file_state n path)
          (send_info-sess event (fetch_info n os event w') ∙ fetch_info-sess event w')
      ∙ update_file_state_stored n path path i.mod_time.sec i.size w.sess m l
      ∙ rw (==_self path) refl

  -- After a modified event of a watched path that Lstat finds, another one for which Lstat shows the
  -- same time and size sends nothing and changes nothing in the session.
  pub modified_notified_once :
      (i j : FileInfo) (w : Here n os) (m : WatchMeta)
      → w.notifying ≡ true
      → lookup path w.sess.watched_paths ≡ some m
      → seen w ≡ ok i
      → (let w1 = on_watch_event n os (modified_event path) w in
          let w2 = on_watch_event n os (modified_event path) w1 in
          seen w1 ≡ ok j
          → j.mod_time.sec ≡ i.mod_time.sec
          → j.size ≡ i.size
          → (w2.sent ≡ w1.sent) × (w2.sess ≡ w1.sess))
  modified_notified_once i j w m t l k k' a b = elim (Bool-cases (is_stale i m.mtime m.size)) [
    | inl e ↦
        let (same_sent, same_sess) = stale_suppressed m.mtime m.size i w (stored w m l) k e in
        stale_suppressed m.mtime m.size j (on_watch_event n os (modified_event path) w)
          (ap (get_file_state n path) same_sess ∙ stored w m l) k'
          (is_stale_of i j m.mtime m.size a b e)
    | inr e ↦
        stale_suppressed i.mod_time.sec i.size j (on_watch_event n os (modified_event path) w)
          (fresh_stored m.mtime m.size i w m t l (stored w m l) k e) k'
          (same-is_stale j i.mod_time.sec i.size a b)
  ]
