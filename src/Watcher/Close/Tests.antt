-- ===== src/Watcher/Close/Tests.antt =====
-- Four events in a window, a fifth after it, and Close: server/fs/watcher.go.
use flit_el.Prelude.{◌≡◌, refl, inl, some, [], ◌∷◌, ◌++◌, text_eq, text_beq}
use flit_el.Prelude.GoMap.{lookup, insert, erase}
use flit_el.Watcher.{modified, WatchEvent, DebounceState, Timer, W, new_watcher, forget_debounce}
use flit_el.Watcher.PathSet.{path_set}
use flit_el.Watcher.Debounce.{trigger_debounced_notification, current_state, fire}
use flit_el.Watcher.Close.{close}
use flit_el.Watcher.Close.Orphan.{Runs, expired_timer_outlives_close}

abbrev event : WatchEvent
event = record { path = 47 ∷ 97 ∷ []; type = modified }

abbrev waiting : Timer
waiting = record { key = 0; event = event; due = 1500000000 }

abbrev limited : DebounceState
limited = record { timer = some 0; count = 3; window_end = 1000000000 }

abbrev w : W path_set
w = record {
  fs = [];
  watches = [];
  debounce_states = (event.path, limited) ∷ [];
  timers = waiting ∷ [];
  next_key = 1;
  sent = event ∷ event ∷ event ∷ [];
}

four_events :
    trigger_debounced_notification path_set 500000000 event (
      trigger_debounced_notification path_set 2 event (
        trigger_debounced_notification path_set 1 event
          (trigger_debounced_notification path_set 0 event (new_watcher path_set []))))
    ≡ w
unfolding trigger_debounced_notification current_state new_watcher lookup insert erase text_eq
    text_beq
four_events = refl

-- Within the window, Close stops the timer.
stopped : (close path_set w).timers ≡ []
unfolding close
stopped = refl

expired_timer_outlives_close_example :
    (let w' = trigger_debounced_notification path_set 1200000000 event w in
      Runs waiting (close path_set w').timers
      × Runs waiting (forget_debounce path_set event.path w').timers
      × ((fire path_set 1500000000 waiting (close path_set w')).sent
          ≡ (w.sent ++ event ∷ []) ++ event ∷ []))
unfolding lookup erase text_eq text_beq
expired_timer_outlives_close_example =
    expired_timer_outlives_close path_set 1200000000 1500000000 event limited waiting w refl refl
      refl tt (inl refl)
