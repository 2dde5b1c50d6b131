-- ===== src/Watcher/Close/Orphan.antt =====
-- A timer that no debounce state points to any more: server/fs/watcher.go.
use flit_el.Prelude.{
  ℕ, ◌+◌, ◌≡◌, refl, ap, ◌⊎◌, inl, inr, arith, Option, none, some, List, [], ◌∷◌, ◌++◌, Text, Bool,
  true, false, text_eq, nat_eq, ltb, ◌==◌, ==_self,
}
use flit_el.Prelude.GoMap.{GoMap, lookup, insert, erase, lookup-insert}
use flit_el.Watcher.Interface.{Fsnotify}
use flit_el.Watcher.{WatchEvent, DebounceState, Timer, W, stop_timer, forget_debounce}
use flit_el.Watcher.Debounce.{
  trigger_debounced_notification, current_state, put_state, emit, fire, send_fired, reset_fired,
  burst_window,
}
use flit_el.Watcher.Close.{close, stop_states, stop_timer_of}

abbrev is_at : ℕ → Option ℕ → Bool
is_at k none = false
is_at k (some j) = j == k

-- No state of the map points to the timer k.
abbrev pub IsFree : ℕ → GoMap Text DebounceState → Type 0
IsFree k [] = Unit
IsFree k ((path, s) ∷ states) = (is_at k s.timer ≡ false) × IsFree k states

abbrev pub Runs : Timer → List Timer → Type 0
Runs t [] = ⊥
Runs t (u ∷ ts) = (u ≡ t) ⊎ Runs t ts

stop_timer-Runs :
    (j : ℕ) (t : Timer) (ts : List Timer)
    → (j == t.key) ≡ false
    → Runs t ts
    → Runs t (stop_timer j ts)
unfolding stop_timer
stop_timer-Runs j t [] h r = r
stop_timer-Runs j t (u ∷ ts) h (inl e) = ground (arith, ap (λ (v : Timer). v.key) e)
stop_timer-Runs j t (u ∷ ts) h (inr r) = ground (arith, stop_timer-Runs j t ts h r)

stop_timer_of-Runs :
    (o : Option ℕ) (t : Timer) (ts : List Timer)
    → is_at t.key o ≡ false
    → Runs t ts
    → Runs t (stop_timer_of o ts)
stop_timer_of-Runs none t ts h r = r
stop_timer_of-Runs (some j) t ts h r = stop_timer-Runs j t ts h r

stop_states-Runs :
    (states : GoMap Text DebounceState) (t : Timer) (ts : List Timer)
    → IsFree t.key states
    → Runs t ts
    → Runs t (stop_states states ts)
unfolding stop_states
stop_states-Runs [] t ts f r = r
stop_states-Runs ((path, s) ∷ states) t ts (f, fs) r =
    stop_states-Runs states t (stop_timer_of s.timer ts) fs (stop_timer_of-Runs s.timer t ts f r)

module _ (n : Fsnotify) where
  -- The event is sent at once, with a new state that has no timer.
  abbrev sent_at_once : ℕ → WatchEvent → W n → W n
  sent_at_once now e w =
      emit n e
        (put_state n e.path (record { timer = none; count = 1; window_end = now + burst_window }) w)

  trigger_expired :
      (now : ℕ) (e : WatchEvent) (s : DebounceState) (w : W n)
      → lookup e.path w.debounce_states ≡ some s
      → ltb s.window_end now ≡ true
      → trigger_debounced_notification n now e w ≡ sent_at_once now e w
  unfolding trigger_debounced_notification current_state
  trigger_expired now e s w at x = rw at (rw (x, current_state) refl)

  forget_new :
      (now : ℕ) (e : WatchEvent) (w : W n)
      → (forget_debounce n e.path (sent_at_once now e w)).timers ≡ w.timers
  unfolding forget_debounce put_state emit
  forget_new now e w =
      rw
        (
          lookup-insert e.path e.path
              (record { timer = none; count = 1; window_end = now + burst_window })
              w.debounce_states,
          ==_self e.path,
        )
        refl

  -- An event of a path whose window has expired while the timer of its state still runs, and that no
  -- other path's state points to, is sent at once and leaves the timer without a state: Close does not
  -- stop it, and neither does dropping the path's state, as Unwatch does. When it fires, its event is
  -- sent after Close.
  pub expired_timer_outlives_close :
      (now later : ℕ) (e : WatchEvent) (s : DebounceState) (t : Timer) (w : W n)
      → lookup e.path w.debounce_states ≡ some s
      → s.timer ≡ some t.key
      → ltb s.window_end now ≡ true
      → IsFree t.key (erase e.path w.debounce_states)
      → Runs t w.timers
      → (let w' = trigger_debounced_notification n now e w in
          Runs t (close n w').timers
          × Runs t (forget_debounce n e.path w').timers
          × ((fire n later t (close n w')).sent ≡ (w.sent ++ e ∷ []) ++ t.event ∷ []))
  unfolding put_state emit fire send_fired reset_fired close insert lookup stop_states
  expired_timer_outlives_close now later e s t w at k x f r = rw (trigger_expired now e s w at x) (
    stop_states-Runs (erase e.path w.debounce_states) t w.timers f r,
    rw (forget_new now e w) r,
    refl,
  )
