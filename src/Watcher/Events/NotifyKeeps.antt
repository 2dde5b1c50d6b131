-- ===== src/Watcher/Events/NotifyKeeps.antt =====
-- Notifications, and what fsnotify has registered: server/fs/watcher.go.
use flit_el.Prelude.{
  ℕ, sym, ap, ◌∙◌, Bool, true, false, List, [], ◌∷◌, Text, text_eq, if◌then◌else◌,
}
use flit_el.Prelude.GoMap.{GoMap, lookup}
use flit_el.Filepath.{dir, base}
use flit_el.Watcher.Interface.{Fsnotify}
use flit_el.Watcher.{
  WatchInfo, WatchEvent, EventType, created, renamed, modified, deleted, W, pop_pending_for_child,
  is_directly_watched,
}
use flit_el.Watcher.Debounce.{trigger_debounced_notification, emit}
use flit_el.Watcher.Debounce.Untouched.{SameWatches, trigger-SameWatches}
use flit_el.Watcher.Sound.{IsSound, add-IsSound, pop_pending_for_child-IsSound}
use flit_el.Watcher.Events.{add_again, notify_pending, notify_event, notify_created, finish_event}

module _ (n : Fsnotify) where
  open n use {State, add, watching}

  pub SameWatches-IsSound : (w w' : W n) → SameWatches n w w' → IsSound n w → IsSound n w'
  SameWatches-IsSound w w' s v = record {
    at = λ p i e.
        ap (watching p) s.fs
        ∙ v.at p i (ap (λ (m : GoMap Text WatchInfo). lookup p m) (sym s.watches) ∙ e);
  }

  pub emit-IsSound : (e : WatchEvent) (w : W n) → IsSound n w → IsSound n (emit n e w)
  unfolding emit
  emit-IsSound e w v = record { at = v.at }

  trigger-IsSound :
      (now : ℕ) (e : WatchEvent) (w : W n)
      → IsSound n w
      → IsSound n (trigger_debounced_notification n now e w)
  trigger-IsSound now e w v = SameWatches-IsSound w _ (trigger-SameWatches n now e w) v

  pub add_again-IsSound : (p : Text) (w : W n) → IsSound n w → IsSound n (add_again n p w)
  unfolding add_again
  add_again-IsSound p w v = add-IsSound n p w v

  notify_pending-IsSound :
      (ps : List Text) (w : W n) → IsSound n w → IsSound n (notify_pending n ps w)
  unfolding notify_pending
  notify_pending-IsSound [] w v = v
  notify_pending-IsSound (p ∷ ps) w v =
      notify_pending-IsSound ps _ (emit-IsSound _ _ (again (is_directly_watched n p w)))
    where
      again : (b : Bool) → IsSound n (if b then add_again n p w else w)
      again true = add_again-IsSound p w v
      again false = v

  notify_event-IsSound :
      (now : ℕ) (name : Text) (ty : EventType) (w : W n)
      → IsSound n w
      → IsSound n (notify_event n now name ty w)
  unfolding notify_event
  notify_event-IsSound now name ty w v =
      choose (is_directly_watched n name w) (is_directly_watched n (dir name) w)
    where
      choose :
          (b c : Bool)
          → IsSound n (
              if b
              then trigger_debounced_notification n now (record { path = name; type = ty }) w
              else if c
              then trigger_debounced_notification n now
                  (record { path = dir name; type = modified })
                  w
              else w)
      choose true c = trigger-IsSound now _ w v
      choose false true = trigger-IsSound now _ w v
      choose false false = v

  notify_created-IsSound :
      (name : Text) (w : W n) → IsSound n w → IsSound n (notify_created n name w)
  unfolding notify_created
  notify_created-IsSound name w v =
      let (pending, w1) = pop_pending_for_child n (dir name) (base name) w in
      notify_pending-IsSound pending w1 (pop_pending_for_child-IsSound n (dir name) (base name) w v)

  pub finish_event-IsSound :
      (now : ℕ) (name : Text) (ty : EventType) (w : W n)
      → IsSound n w
      → IsSound n (finish_event n now name ty w)
  unfolding finish_event
  finish_event-IsSound now name created w v =
      notify_event-IsSound now name created _ (notify_created-IsSound name w v)
  finish_event-IsSound now name renamed w v =
      notify_event-IsSound now name renamed _ (notify_created-IsSound name w v)
  finish_event-IsSound now name modified w v = notify_event-IsSound now name modified w v
  finish_event-IsSound now name deleted w v = notify_event-IsSound now name deleted w v
