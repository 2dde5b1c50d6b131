-- ===== src/Watcher.antt =====
-- server/fs/watcher.go: watches with reference counts, pending paths and debounced notifications.
-- fsnotify, a third-party package, is the interface `Fsnotify`. Every method holds `w.mu` while it
-- changes the state, so each is one step; time is an argument, in nanoseconds.
pub mod Interface
pub mod Debounce
pub mod Events
pub mod Sound
pub mod Counts
pub mod Direct
pub mod PathSet
pub mod Close
mod Tests
use flit_el.Prelude.{
  ℕ, zero, suc, ◌+◌, ◌-◌, ◌≡◌, Bool, true, false, Option, none, some, List, [], ◌∷◌, ◌++◌, Text,
  text_eq, nat_eq, is_empty, ltb, ◌==◌, ◌&&◌, if◌then◌else◌,
}
use flit_el.Prelude.GoMap.{GoMap, lookup, insert, erase, map_values}
use flit_el.Filepath.{rel, split_slash, dir, base}
use flit_el.Watcher.Interface.{Fsnotify}

-- The `Type` of a WatchEvent.
pub data EventType : Type 0 where
  modified created deleted renamed : EventType

pub record WatchEvent : Type 0 where
  pub path : Text
  pub type : EventType

pub record WatchInfo : Type 0 where
  pub ref_count : ℕ
  pub pending : GoMap Text (List Text)

-- A timer of `time.AfterFunc` that has not fired.
pub record Timer : Type 0 where
  pub key : ℕ
  pub event : WatchEvent
  pub due : ℕ

-- debounceState; `timer` is the key of the timer that it points to.
pub record DebounceState : Type 0 where
  pub timer : Option ℕ
  pub count : ℕ
  pub window_end : ℕ

-- Watcher, with the timers that run and the events for which `notify` has been called.
pub record Watcher (F : Type 0) : Type 0 where
  pub fs : F
  pub watches : GoMap Text WatchInfo
  pub debounce_states : GoMap Text DebounceState
  pub timers : List Timer
  pub next_key : ℕ
  pub sent : List WatchEvent

abbrev pub no_watch : WatchInfo
no_watch = record { ref_count = 0; pending = [] }

-- `info.refCount == 0 && len(info.pending) == 0`
unfoldable pub is_unused : WatchInfo → Bool
is_unused info = ltb info.ref_count 1 && is_empty info.pending

abbrev pub info_or_new : Option WatchInfo → WatchInfo
info_or_new none = no_watch
info_or_new (some info) = info

-- `info.pending[child]`, nil where there is none
abbrev pub list_or_nil : Option (List Text) → List Text
list_or_nil none = []
list_or_nil (some ps) = ps

-- timer.Stop()
unfoldable pub stop_timer : ℕ → List Timer → List Timer
stop_timer k [] = []
stop_timer k (t ∷ ts) = let rest = stop_timer k ts in if t.key == k then rest else t ∷ rest

-- timer.Reset(d), for a timer that runs
unfoldable pub reset_timer : ℕ → ℕ → List Timer → List Timer
reset_timer k due [] = []
reset_timer k due (t ∷ ts) =
    (if t.key == k then record t { due = due } else t) ∷ reset_timer k due ts

-- `info.pending[child] = ps`, or `delete(info.pending, child)` where none is left.
unfoldable pub set_pending : Text → List Text → WatchInfo → WatchInfo
set_pending child ps info = record info {
  pending = if is_empty ps then erase child info.pending else insert child ps info.pending;
}

module _ (n : Fsnotify) where
  open n use {State, add, remove}

  abbrev pub W : Type 0
  W = Watcher State

  -- NewWatcher
  unfoldable pub new_watcher : State → W
  new_watcher fs = record {
    fs = fs;
    watches = [];
    debounce_states = [];
    timers = [];
    next_key = 0;
    sent = [];
  }

  -- getOrCreateWatch, with the map that it leaves
  unfoldable pub get_or_create_watch : Text → W → WatchInfo × W
  get_or_create_watch path w =
      let info = info_or_new (lookup path w.watches) in
      (info, record w { watches = insert path info w.watches })

  unfoldable pub put_info : Text → WatchInfo → W → W
  put_info path info w = record w { watches = insert path info w.watches }

  stop_state : Text → Option DebounceState → W → W
  stop_state path none w = w
  stop_state path (some s) w = record w {
    timers = elim s.timer [ none ↦ w.timers | some k ↦ stop_timer k w.timers ];
    debounce_states = erase path w.debounce_states;
  }

  -- `if state, ok := w.debounceStates[path]; ok { … delete(w.debounceStates, path) }`
  unfoldable pub forget_debounce : Text → W → W
  unfolding stop_state
  forget_debounce path w = stop_state path (lookup path w.debounce_states) w

  add_new : Text → WatchInfo → Bool × State → W → Bool × W
  add_new path info (true, fs) w =
      (true, put_info path (record info { ref_count = info.ref_count + 1 }) (record w { fs = fs }))
  add_new path info (false, fs) w = (false, record w { fs = fs; watches = erase path w.watches })

  -- Watch, which WatchFile and WatchDir only call; false where it returns an error. In the error
  -- branch the entry is still unused, so it is deleted.
  unfoldable pub watch : Text → W → Bool × W
  unfolding get_or_create_watch put_info add_new
  watch path w =
      let (info, w1) = get_or_create_watch path w in
      if is_unused info
      then add_new path info (add path w1.fs) w1
      else (true, put_info path (record info { ref_count = info.ref_count + 1 }) w1)

  unfoldable pub watch_file : Text → W → Bool × W
  unfolding watch
  watch_file path w = watch path w

  unfoldable pub watch_dir : Text → W → Bool × W
  unfolding watch
  watch_dir path w = watch path w

  first_or_empty : List Text → Text
  first_or_empty [] = []
  first_or_empty (p ∷ ps) = p

  add_pending : Text → Text → Option WatchInfo → Option Text → W → W
  unfolding put_info first_or_empty
  add_pending ancestor path none r w = w
  add_pending ancestor path (some info) none w = w
  add_pending ancestor path (some info) (some r) w =
      let child = first_or_empty (split_slash r) in
      put_info ancestor
        (record info {
          pending =
              insert child (list_or_nil (lookup child info.pending) ++ path ∷ []) info.pending;
        })
        w

  -- WatchPending
  unfoldable pub watch_pending : Text → Text → W → W
  unfolding add_pending
  watch_pending ancestor path w =
      add_pending ancestor path (lookup ancestor w.watches) (rel ancestor path) w

  -- ClearPending
  unfoldable pub clear_pending : W → W
  clear_pending w = record w {
    watches = map_values (λ info. record info { pending = [] }) w.watches;
  }

  drop_watch : Text → W → Bool × W
  unfolding forget_debounce
  drop_watch path w =
      let w1 = forget_debounce path (record w { watches = erase path w.watches }) in
      let (done, fs) = remove path w1.fs in (done, record w1 { fs = fs })

  decrement : Text → WatchInfo → W → Bool × W
  unfolding drop_watch put_info
  decrement path info w =
      let info' = record info { ref_count = info.ref_count - 1 } in
      if is_unused info' then drop_watch path w else (true, put_info path info' w)

  unwatch_info : Text → Option WatchInfo → W → Bool × W
  unfolding decrement
  unwatch_info path none w = (true, w)
  unwatch_info path (some info) w =
      if ltb info.ref_count 1 then (true, w) else decrement path info w

  -- Unwatch; false where it returns an error
  unfoldable pub unwatch : Text → W → Bool × W
  unfolding unwatch_info
  unwatch path w = unwatch_info path (lookup path w.watches) w

  abbrev counts : Option WatchInfo → Bool
  counts none = false
  counts (some info) = ltb 0 info.ref_count

  -- isDirectlyWatched
  unfoldable pub is_directly_watched : Text → W → Bool
  is_directly_watched path w = counts (lookup path w.watches)

  -- Both places that clean up an ancestor's watch ignore the error of fsnotify.
  unfoldable pub clean_up_ancestor : Text → WatchInfo → W → W
  unfolding drop_watch put_info
  clean_up_ancestor ancestor info w =
      if is_unused info then (drop_watch ancestor w).1 else put_info ancestor info w

  pop_pending : Text → Text → Option WatchInfo → W → List Text × W
  unfolding clean_up_ancestor
  pop_pending ancestor child none w = ([], w)
  pop_pending ancestor child (some info) w = (
    list_or_nil (lookup child info.pending),
    clean_up_ancestor ancestor (record info { pending = erase child info.pending }) w,
  )

  -- popPendingForChild
  unfoldable pub pop_pending_for_child : Text → Text → W → List Text × W
  unfolding pop_pending
  pop_pending_for_child ancestor child w = pop_pending ancestor child (lookup ancestor w.watches) w
