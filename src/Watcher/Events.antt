-- ===== src/Watcher/Events.antt =====
-- server/fs/watcher.go: run, one event at a time, and watchParentForPending.
-- What `os.Stat` says of a path at each call is an argument. No other method runs between the parts
-- of watchParentForPending, which lets go of the lock.
pub mod NotifyKeeps
pub mod ParentKeeps
pub mod Preserve
pub mod Recreation
use flit_el.Prelude.{
  ℕ, suc, ◌+◌, Bool, true, false, Option, none, some, List, [], ◌∷◌, ◌++◌, Text, text_eq, ltb, ◌==◌,
  if◌then◌else◌,
}
use flit_el.Prelude.GoMap.{GoMap, lookup, insert, erase}
use flit_el.Filepath.{dir, base}
use flit_el.Watcher.Interface.{Fsnotify}
use flit_el.Watcher.{
  Watcher, WatchInfo, WatchEvent, EventType, modified, created, deleted, renamed, W, is_unused,
  list_or_nil, info_or_new, set_pending, get_or_create_watch, put_info, is_directly_watched,
  clean_up_ancestor, pop_pending_for_child,
}
use flit_el.Watcher.Debounce.{emit, trigger_debounced_notification}

pub data Stat : Type 0 where
  found not_exist stat_failed : Stat

-- fsnotify.Op
pub record Op : Type 0 where
  pub write : Bool
  pub create : Bool
  pub remove : Bool
  pub rename : Bool
  pub chmod : Bool

-- The loop that removes the first occurrence of `path`.
unfoldable pub remove_first : Text → List Text → List Text
remove_first path [] = []
remove_first path (p ∷ ps) = if p == path then ps else p ∷ remove_first path ps

module _ (n : Fsnotify) where
  open n use {State, add}

  -- `w.watcher.Add(path)`, whose error is only logged
  unfoldable pub add_again : Text → W n → W n
  add_again path w = record w { fs = (add path w.fs).1 }

  -- A clean-up under the lock, on the entry that the lock's holder finds.
  with_info : Text → (WatchInfo → W n → W n) → W n → W n
  with_info path f w = f (info_or_new (lookup path w.watches)) w

  -- The error branch: `delete(info.pending, childName)`.
  undo_pending : Text → Text → WatchInfo → W n → W n
  unfolding put_info
  undo_pending parent child info w =
      let info' = record info { pending = erase child info.pending } in
      if is_unused info'
      then record w { watches = erase parent w.watches }
      else put_info n parent info' w

  -- `path` is taken from the pending paths of the parent, and the parent's watch is cleaned up.
  drop_pending : Text → Text → Text → WatchInfo → W n → W n
  unfolding clean_up_ancestor set_pending
  drop_pending parent child path info w =
      clean_up_ancestor n parent
        (set_pending child (remove_first path (list_or_nil (lookup child info.pending))) info) w

  -- The file is there again: its watch is added, and it is no longer pending.
  recreated : Text → Text → Text → W n → W n
  unfolding add_again with_info drop_pending emit
  recreated parent child path w =
      emit n (record { path = path; type = modified })
        (with_info parent (drop_pending parent child path) (add_again path w))

  check_again : Stat → Text → Text → Text → W n → Bool × W n
  unfolding recreated
  check_again found parent child path w = (true, recreated parent child path w)
  check_again not_exist parent child path w = (false, w)
  check_again stat_failed parent child path w = (false, w)

  after_add : Stat → Text → Text → Text → Bool × State → W n → Bool × W n
  unfolding check_again undo_pending with_info
  after_add stat parent child path (true, fs) w =
      check_again stat parent child path (record w { fs = fs })
  after_add stat parent child path (false, fs) w =
      (false, with_info parent (undo_pending parent child) (record w { fs = fs }))

  -- watchParentForPending; true where the file was found to exist
  unfoldable pub watch_parent_for_pending : Stat → Text → W n → Bool × W n
  unfolding after_add check_again get_or_create_watch put_info
  watch_parent_for_pending stat path w =
      let parent = dir path in
      let child = base path in
      let (info, w1) = get_or_create_watch n parent w in
      let ps = list_or_nil (lookup child info.pending) ++ path ∷ [] in
      let w2 = put_info n parent (record info { pending = insert child ps info.pending }) w1 in
      if is_unused info
      then after_add stat parent child path (add parent w2.fs) w2
      else check_again stat parent child path w2

  -- What a Remove or a Rename of a watched path leads to: whether the file was found to be there
  -- again by the second look, and the watcher.
  restore_watch : Stat → Stat → Text → W n → Bool × W n
  unfolding add_again watch_parent_for_pending
  restore_watch found again path w = (false, add_again path w)
  restore_watch not_exist again path w = watch_parent_for_pending again path w
  restore_watch stat_failed again path w = (false, w)

  -- The loop over the pending paths of a created child.
  unfoldable pub notify_pending : List Text → W n → W n
  unfolding add_again emit
  notify_pending [] w = w
  notify_pending (p ∷ ps) w = notify_pending ps (
      emit n (record { path = p; type = modified })
        (if is_directly_watched n p w then add_again p w else w))

  -- The choice of the path that is notified.
  unfoldable pub notify_event : ℕ → Text → EventType → W n → W n
  notify_event now name type w =
      if is_directly_watched n name w
      then trigger_debounced_notification n now (record { path = name; type = type }) w
      else if is_directly_watched n (dir name) w
      then trigger_debounced_notification n now (record { path = dir name; type = modified }) w
      else w

  notify_created : Text → W n → W n
  unfolding notify_pending
  notify_created name w =
      let (pending, w1) = pop_pending_for_child n (dir name) (base name) w in
      notify_pending pending w1

  -- What follows the switch on the event's operation.
  unfoldable pub finish_event : ℕ → Text → EventType → W n → W n
  unfolding notify_created notify_event
  finish_event now name created w = notify_event now name created (notify_created name w)
  finish_event now name renamed w = notify_event now name renamed (notify_created name w)
  finish_event now name type w = notify_event now name type w

  after_remove : ℕ → Text → Bool × W n → W n
  unfolding finish_event
  after_remove now name (true, w) = w
  after_remove now name (false, w) = finish_event now name deleted w

  -- A watched file that was renamed away: where it does not exist the event ends here.
  after_rename : ℕ → Text → Stat → Stat → W n → W n
  unfolding finish_event restore_watch
  after_rename now name not_exist again w = (restore_watch not_exist again name w).1
  after_rename now name stat again w =
      finish_event now name renamed (restore_watch stat again name w).1

  -- One round of run's loop. `stat` and `again` are what os.Stat says here and in
  -- watchParentForPending.
  unfoldable pub handle_event : ℕ → Text → Op → Stat → Stat → W n → W n
  unfolding finish_event after_remove after_rename restore_watch
  handle_event now name op stat again w =
      if op.write
      then finish_event now name modified w
      else if op.create
      then finish_event now name created w
      else if op.remove
      then (if is_directly_watched n name w
          then after_remove now name (restore_watch stat again name w)
          else finish_event now name deleted w)
      else if op.rename
      then (if is_directly_watched n name w
          then after_rename now name stat again w
          else finish_event now name renamed w)
      else w
