-- ===== src/Watcher/Events/Preserve.antt =====
-- The event loop, and what fsnotify has been told to watch: server/fs/watcher.go.
use flit_el.Prelude.{ℕ, Text, text_eq}
use flit_el.Watcher.Interface.{Fsnotify}
use flit_el.Watcher.{Timer, W, watch, watch_pending, clear_pending, unwatch}
use flit_el.Watcher.Debounce.{send_fired, reset_fired}
use flit_el.Watcher.Events.{Stat, Op, handle_event}

-- The calls of a client and the events of fsnotify, in any order.
pub data Step (n : Fsnotify) : W n → W n → Type 0 where
  watches : (w : W n) (p : Text) → Step n w (watch n p w).1
  unwatches : (w : W n) (p : Text) → Step n w (unwatch n p w).1
  waits : (w : W n) (ancestor p : Text) → Step n w (watch_pending n ancestor p w)
  clears : (w : W n) → Step n w (clear_pending n w)
  happens :
      (w : W n) (now : ℕ) (name : Text) (op : Op) (stat again : Stat)
      → Step n w (handle_event n now name op stat again w)
  sends : (w : W n) (t : Timer) → Step n w (send_fired n t w)
  resets : (w : W n) (now : ℕ) (t : Timer) → Step n w (reset_fired n now t w)

pub data Reach (n : Fsnotify) (w : W n) : W n → Type 0 where
  here : Reach n w w
  next : {t u : W n} → Reach n w t → Step n t u → Reach n w u
