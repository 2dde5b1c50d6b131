-- ===== src/Watcher/Debounce.antt =====
-- server/fs/watcher.go: triggerDebouncedNotification and the function that its timer runs.
pub mod Burst
pub mod Untouched
use flit_el.Prelude.{
  ℕ, suc, ◌+◌, Bool, true, false, Option, none, some, List, [], ◌∷◌, ◌++◌, Text, text_eq, ltb, ◌==◌,
  if◌then◌else◌,
}
use flit_el.Prelude.GoMap.{GoMap, lookup, insert, erase}
use flit_el.Watcher.Interface.{Fsnotify}
use flit_el.Watcher.{
  Watcher, WatchEvent, EventType, DebounceState, Timer, W, stop_timer, reset_timer,
}

-- time.Second
abbrev pub second : ℕ
second = 1000000000

abbrev pub debounce_interval : ℕ
debounce_interval = second

abbrev pub burst_limit : ℕ
burst_limit = 3

abbrev pub burst_window : ℕ
burst_window = second

fresh_state : ℕ → DebounceState
fresh_state now = record { timer = none; count = 0; window_end = now + burst_window }

-- The state that a notification at `now` finds, anew if the window has expired.
unfoldable pub current_state : ℕ → Option DebounceState → DebounceState
unfolding fresh_state
current_state now none = fresh_state now
current_state now (some s) = if ltb s.window_end now then fresh_state now else s

module _ (n : Fsnotify) where
  unfoldable pub put_state : Text → DebounceState → W n → W n
  put_state path s w = record w { debounce_states = insert path s w.debounce_states }

  -- w.notify(event)
  unfoldable pub emit : WatchEvent → W n → W n
  emit e w = record w { sent = w.sent ++ e ∷ [] }

  start_timer : ℕ → WatchEvent → DebounceState → W n → W n
  unfolding put_state
  start_timer now e s w =
      put_state e.path (record s { timer = some w.next_key })
        (record w {
          timers = record { key = w.next_key; event = e; due = now + debounce_interval } ∷ w.timers;
          next_key = w.next_key + 1;
        })

  send_or_wait : ℕ → WatchEvent → DebounceState → Option ℕ → W n → W n
  unfolding start_timer emit put_state
  send_or_wait now e s (some k) w =
      put_state e.path s (record w { timers = reset_timer k (now + debounce_interval) w.timers })
  send_or_wait now e s none w =
      if ltb s.count burst_limit
      then emit e (put_state e.path (record s { count = s.count + 1 }) w)
      else start_timer now e s w

  -- triggerDebouncedNotification
  unfoldable pub trigger_debounced_notification : ℕ → WatchEvent → W n → W n
  unfolding send_or_wait current_state
  trigger_debounced_notification now e w =
      let s = current_state now (lookup e.path w.debounce_states) in send_or_wait now e s s.timer w

  reset_state : ℕ → Text → Option DebounceState → W n → W n
  unfolding put_state
  reset_state now path none w = w
  reset_state now path (some s) w =
      put_state path (record { timer = none; count = 0; window_end = now + burst_window }) w

  -- The timer fires: it is no longer among those that run, and its function sends the event, without
  -- the lock.
  unfoldable pub send_fired : Timer → W n → W n
  unfolding emit
  send_fired t w = emit t.event (record w { timers = stop_timer t.key w.timers })

  -- The rest of its function, under the lock: the path's state, if there is one by then, starts anew.
  unfoldable pub reset_fired : ℕ → Timer → W n → W n
  unfolding reset_state
  reset_fired now t w = reset_state now t.event.path (lookup t.event.path w.debounce_states) w

  -- The timer's function, while nothing else runs
  unfoldable pub fire : ℕ → Timer → W n → W n
  unfolding send_fired reset_fired
  fire now t w = reset_fired now t (send_fired t w)
