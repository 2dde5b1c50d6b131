-- ===== src/Watcher/Debounce/Untouched.antt =====
-- Debouncing, the watches and the events sent before: server/fs/watcher.go.
use flit_el.Prelude.{
  ℕ, ◌≡◌, refl, sym, List, [], ◌∷◌, ◌++◌, inl, inr, Option, none, some, Text, text_eq, ltb,
  Bool-cases,
}
use mathlib.Core.List.{append-nil}
use flit_el.Prelude.GoMap.{lookup}
use flit_el.Watcher.Interface.{Fsnotify}
use flit_el.Watcher.{WatchEvent, DebounceState, Timer, W}
use flit_el.Watcher.Debounce.{
  burst_limit, current_state, trigger_debounced_notification, send_or_wait, start_timer, emit,
  put_state, send_fired, reset_fired, reset_state,
}

module _ (n : Fsnotify) where
  -- The same watches, at fsnotify and in the map.
  pub record SameWatches (w w' : W n) : Type 0 where
    pub fs : w'.fs ≡ w.fs
    pub watches : w'.watches ≡ w.watches

  send_or_wait-SameWatches :
      (now : ℕ) (e : WatchEvent) (s : DebounceState) (o : Option ℕ) (w : W n)
      → SameWatches w (send_or_wait n now e s o w)
  unfolding send_or_wait start_timer emit put_state
  send_or_wait-SameWatches now e s (some k) w = record { fs = refl; watches = refl }
  send_or_wait-SameWatches now e s none w = elim (Bool-cases (ltb s.count burst_limit)) [
    | inl l ↦ record { fs = rw l; watches = rw l }
    | inr l ↦ record { fs = rw l; watches = rw l }
  ]

  pub trigger-SameWatches :
      (now : ℕ) (e : WatchEvent) (w : W n)
      → SameWatches w (trigger_debounced_notification n now e w)
  unfolding trigger_debounced_notification
  trigger-SameWatches now e w =
      let s = current_state now (lookup e.path w.debounce_states) in
      send_or_wait-SameWatches now e s s.timer w

  send_or_wait-Extends :
      (now : ℕ) (e : WatchEvent) (s : DebounceState) (o : Option ℕ) (w : W n)
      → (rest : List WatchEvent) × ((send_or_wait n now e s o w).sent ≡ w.sent ++ rest)
  unfolding send_or_wait start_timer emit put_state
  send_or_wait-Extends now e s (some k) w = ([], sym (append-nil w.sent))
  send_or_wait-Extends now e s none w = elim (Bool-cases (ltb s.count burst_limit)) [
    | inl l ↦ (e ∷ [], rw l refl)
    | inr l ↦ ([], rw l (sym (append-nil w.sent)))
  ]

  -- No event that was sent is taken back.
  pub trigger-Extends :
      (now : ℕ) (e : WatchEvent) (w : W n)
      → (rest : List WatchEvent) × ((trigger_debounced_notification n now e w).sent
          ≡ w.sent ++ rest)
  unfolding trigger_debounced_notification
  trigger-Extends now e w =
      let s = current_state now (lookup e.path w.debounce_states) in
      send_or_wait-Extends now e s s.timer w

  reset_state-SameWatches :
      (now : ℕ) (p : Text) (o : Option DebounceState) (w : W n)
      → SameWatches w (reset_state n now p o w)
  unfolding reset_state put_state
  reset_state-SameWatches now p none w = record { fs = refl; watches = refl }
  reset_state-SameWatches now p (some s) w = record { fs = refl; watches = refl }

  pub send_fired-SameWatches : (t : Timer) (w : W n) → SameWatches w (send_fired n t w)
  unfolding send_fired emit
  send_fired-SameWatches t w = record { fs = refl; watches = refl }

  pub reset_fired-SameWatches :
      (now : ℕ) (t : Timer) (w : W n) → SameWatches w (reset_fired n now t w)
  unfolding reset_fired
  reset_fired-SameWatches now t w =
      reset_state-SameWatches now t.event.path (lookup t.event.path w.debounce_states) w
