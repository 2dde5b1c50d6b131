-- ===== src/Watcher/Events/Recreation.antt =====
-- What a Create event tells of pending paths: run in server/fs/watcher.go.
use flit_el.Prelude.{
  ℕ, ◌≡◌, refl, sym, ap, ◌∙◌, inl, inr, Bool, true, false, Option, none, some, List, [], ◌∷◌, ◌++◌,
  map, Text, text_eq, ==_self, Bool-cases, if◌then◌else◌,
}
use flit_el.Prelude.GoMap.{lookup, erase, lookup-erase, lookup-insert}
use mathlib.Core.List.{append-nil, append_assoc}
use flit_el.Filepath.{dir, base}
use flit_el.Watcher.Interface.{Fsnotify}
use flit_el.Watcher.{
  WatchInfo, WatchEvent, EventType, modified, created, DebounceState, W, list_or_nil, is_unused,
  is_directly_watched, drop_watch, stop_state, forget_debounce, clean_up_ancestor, put_info,
  pop_pending, pop_pending_for_child,
}
use flit_el.Watcher.Debounce.{trigger_debounced_notification, emit}
use flit_el.Watcher.Debounce.Untouched.{trigger-SameWatches, trigger-Extends}
use flit_el.Watcher.Events.{
  Op, Stat, add_again, notify_pending, notify_event, notify_created, finish_event, handle_event,
}

-- The event that a pending path's creation is reported with.
abbrev pub now_modified : Text → WatchEvent
now_modified p = record { path = p; type = modified }

abbrev pub waiting : Text → Option WatchInfo → List Text
waiting child none = []
waiting child (some info) = list_or_nil (lookup child info.pending)

module _ (n : Fsnotify) where
  -- The paths that wait for `child` to be created in `ancestor`.
  abbrev pub pending_of : Text → Text → W n → List Text
  pending_of ancestor child w = waiting child (lookup ancestor w.watches)

  -- The events of `w'` are those of `w`, then `evs`, then maybe others.
  abbrev pub SendsFirst : List WatchEvent → W n → W n → Type 0
  SendsFirst evs w w' = (rest : List WatchEvent) × (w'.sent ≡ (w.sent ++ evs) ++ rest)

  drop_watch_keeps :
      (p : Text) (w : W n)
      → ((drop_watch n p w).1.sent ≡ w.sent) × ((drop_watch n p w).1.watches ≡ erase p w.watches)
  unfolding drop_watch forget_debounce
  drop_watch_keeps p w = state (lookup p w.debounce_states)
    where
      state :
          (o : Option DebounceState)
          → ((stop_state n p o (record w { watches = erase p w.watches })).sent ≡ w.sent)
            × ((stop_state n p o (record w { watches = erase p w.watches })).watches
                ≡ erase p w.watches)
      state none = (refl, refl)
      state (some s) = (refl, refl)

  clean_up_keeps :
      (a c : Text) (i : WatchInfo) (w : W n)
      → waiting c (some i) ≡ []
      → ((clean_up_ancestor n a i w).sent ≡ w.sent)
        × (pending_of a c (clean_up_ancestor n a i w) ≡ [])
  unfolding clean_up_ancestor put_info
  clean_up_keeps a c i w h = elim (Bool-cases (is_unused i)) [
    | inl u ↦ rw u (
      (drop_watch_keeps a w).0,
      ap (λ m. waiting c (lookup a m)) (drop_watch_keeps a w).1
          ∙ rw (lookup-erase a a w.watches, ==_self a) refl,
    )
    | inr u ↦ rw u (refl, rw (lookup-insert a a i w.watches, ==_self a) h)
  ]

  pop_exact :
      (a c : Text) (w : W n) (o : Option WatchInfo)
      → lookup a w.watches ≡ o
      → ((pop_pending n a c o w).0 ≡ waiting c o)
        × ((pop_pending n a c o w).1.sent ≡ w.sent)
        × (pending_of a c (pop_pending n a c o w).1 ≡ [])
  unfolding pop_pending
  pop_exact a c w none h = (refl, refl, ap (waiting c) h)
  pop_exact a c w (some i) h =
      let k =
        clean_up_keeps a c (record i { pending = erase c i.pending }) w
          (rw (lookup-erase c c i.pending, ==_self c) refl) in
      (refl, k.0, k.1)

  notify_pending_exact :
      (ps : List Text) (w : W n)
      → ((notify_pending n ps w).sent ≡ w.sent ++ map now_modified ps)
        × ((notify_pending n ps w).watches ≡ w.watches)
  unfolding notify_pending add_again emit
  notify_pending_exact [] w = (sym (append-nil w.sent), refl)
  notify_pending_exact (p ∷ ps) w = elim (Bool-cases (is_directly_watched n p w)) [
    | inl h ↦
        let r = notify_pending_exact ps (emit n (now_modified p) (add_again n p w)) in
        rw (h, notify_pending)
          (r.0 ∙ append_assoc w.sent (now_modified p ∷ []) (map now_modified ps), r.1)
    | inr h ↦
        let r = notify_pending_exact ps (emit n (now_modified p) w) in
        rw (h, notify_pending)
          (r.0 ∙ append_assoc w.sent (now_modified p ∷ []) (map now_modified ps), r.1)
  ]

  -- What `notify_event` adds to the events; it leaves the watches alone.
  notify_event_extends :
      (now : ℕ) (name : Text) (ty : EventType) (w : W n)
      → ((rest : List WatchEvent) × ((notify_event n now name ty w).sent ≡ w.sent ++ rest))
        × ((notify_event n now name ty w).watches ≡ w.watches)
  unfolding notify_event
  notify_event_extends now name ty w =
      cases (is_directly_watched n name w) (is_directly_watched n (dir name) w)
    where
      cases :
          (a b : Bool)
          → (let w1 =
                (if a
                  then trigger_debounced_notification n now (record { path = name; type = ty }) w
                  else if b
                  then trigger_debounced_notification n now
                      (record { path = dir name; type = modified })
                      w
                  else w) in
              ((rest : List WatchEvent) × (w1.sent ≡ w.sent ++ rest)) × (w1.watches ≡ w.watches))
      cases true b = (
        trigger-Extends n now (record { path = name; type = ty }) w,
        (trigger-SameWatches n now (record { path = name; type = ty }) w).watches,
      )
      cases false true = (
        trigger-Extends n now (record { path = dir name; type = modified }) w,
        (trigger-SameWatches n now (record { path = dir name; type = modified }) w).watches,
      )
      cases false false = (([], sym (append-nil w.sent)), refl)

  -- After a Create event of a path, the events sent are those before, then a "modified" event for
  -- each path that waited for it in the entry of its directory, in the order in which they were
  -- added, then maybe one of the path itself; and no path waits for it any more.
  pub recreation_notified :
      (now : ℕ) (name : Text) (op : Op) (stat again : Stat) (w : W n)
      → op.write ≡ false
      → op.create ≡ true
      → (let w' = handle_event n now name op stat again w in
          SendsFirst (map now_modified (pending_of (dir name) (base name) w)) w w'
          × (pending_of (dir name) (base name) w' ≡ []))
  unfolding handle_event finish_event notify_created pop_pending_for_child
  recreation_notified now name op stat again w f t =
      let (ps, p1, gone) = pop_exact (dir name) (base name) w (lookup (dir name) w.watches) refl in
      let r = pop_pending n (dir name) (base name) (lookup (dir name) w.watches) w in
      let q = notify_pending_exact r.0 r.1 in
      let (rest, e) = (notify_event_extends now name created (notify_pending n r.0 r.1)).0 in
      let same = (notify_event_extends now name created (notify_pending n r.0 r.1)).1 in
      rw (f, t)
        (
          (rest, rw (e, q.0, ps, p1) refl),
          ap (λ m. waiting (base name) (lookup (dir name) m)) (same ∙ q.1) ∙ gone,
        )
