-- ===== src/Watcher/Close.antt =====
-- Close, and the end of the loop of run: server/fs/watcher.go. fsnotify's own Close is left out: no
-- event comes after it.
pub mod Orphan
mod Tests
use flit_el.Prelude.{ℕ, Option, none, some, List, [], ◌∷◌, Text, Bool, true, false}
use flit_el.Prelude.GoMap.{GoMap}
use flit_el.Watcher.Interface.{Fsnotify}
use flit_el.Watcher.{Watcher, WatchEvent, DebounceState, Timer, W, stop_timer}
use flit_el.Watcher.Events.{Op, handle_event}
use flit_el.Watcher.Debounce.{fire}

-- `if state.timer != nil { state.timer.Stop() }`
abbrev pub stop_timer_of : Option ℕ → List Timer → List Timer
stop_timer_of none ts = ts
stop_timer_of (some k) ts = stop_timer k ts

-- The loop of Close over debounceStates.
unfoldable pub stop_states : GoMap Text DebounceState → List Timer → List Timer
unfolding stop_timer
stop_states [] ts = ts
stop_states ((path, s) ∷ states) ts = stop_states states (stop_timer_of s.timer ts)

module _ (n : Fsnotify) where
  -- Close
  unfoldable pub close : W n → W n
  unfolding stop_states
  close w = record w { timers = stop_states w.debounce_states w.timers; debounce_states = [] }
