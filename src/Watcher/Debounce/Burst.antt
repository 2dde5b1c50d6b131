-- ===== src/Watcher/Debounce/Burst.antt =====
-- How many notifications of one path are sent at once: server/fs/watcher.go.
use flit_el.Prelude.{
  ℕ, zero, suc, ◌+◌, ◌-◌, ◌≤◌, ◌≡◌, refl, sym, ap, ◌∙◌, inl, inr, Option, none, some, List, [], ◌∷◌,
  ◌++◌, arith, All, take, Text, text_eq, ltb, ==_self, Bool-cases,
}
use mathlib.Core.List.{append-nil, append_assoc}
use flit_el.Prelude.GoMap.{lookup, insert, lookup-insert}
use flit_el.Watcher.Interface.{Fsnotify}
use flit_el.Watcher.{WatchEvent, EventType, DebounceState, W}
use flit_el.Watcher.Debounce.{
  second, burst_limit, current_state, fresh_state, put_state, emit, start_timer, send_or_wait,
  trigger_debounced_notification,
}

-- How many events of a path are still sent at once.
abbrev budget_of : Option ℕ → ℕ → ℕ
budget_of none count = 3 - count
budget_of (some k) count = 0

abbrev pub budget : DebounceState → ℕ
budget s = budget_of s.timer s.count

-- The budget after an event.
abbrev pub spent : ℕ → ℕ
spent zero = zero
spent (suc b) = b

-- The event, if there is budget for it.
abbrev pub sent_now : ℕ → WatchEvent → List WatchEvent
sent_now zero e = []
sent_now (suc b) e = e ∷ []

abbrev pub events_of : Text → List (ℕ × EventType) → List WatchEvent
events_of path [] = []
events_of path ((t, ty) ∷ evs) = record { path = path; type = ty } ∷ events_of path evs

take_nil {ℓ} : {A : Type ℓ} (b : ℕ) → take {A = A} b [] ≡ []
take_nil zero = refl
take_nil (suc b) = refl

take_cons :
    (b : ℕ) (e : WatchEvent) (es : List WatchEvent)
    → take b (e ∷ es) ≡ sent_now b e ++ take (spent b) es
take_cons zero e es = sym (take_nil zero)
take_cons (suc b) e es = refl

module _ (n : Fsnotify) where
  -- Events of one path, at their times, with no timer firing between them.
  abbrev pub trigger_all : Text → List (ℕ × EventType) → W n → W n
  trigger_all path [] w = w
  trigger_all path ((t, ty) ∷ evs) w =
      trigger_all path evs
        (trigger_debounced_notification n t (record { path = path; type = ty }) w)

  -- What one event does to the events sent and to its path's state.
  record IsSpent (path : Text) (s : DebounceState) (e : WatchEvent) (w w' : W n) : Type 0 where
    events : w'.sent ≡ w.sent ++ sent_now (budget s) e
    state :
        (s' : DebounceState) × (lookup path w'.debounce_states ≡ some s')
        × (s'.window_end ≡ s.window_end)
        × (budget s' ≡ spent (budget s))

  lookup-insert_self :
      (p : Text) (s : DebounceState) (w : W n) → lookup p (insert p s w.debounce_states) ≡ some s
  lookup-insert_self p s w = rw (lookup-insert p p s w.debounce_states, ==_self p)

  send_or_wait-IsSpent :
      (now : ℕ) (e : WatchEvent) (s : DebounceState) (o : Option ℕ) (w : W n)
      → s.timer ≡ o
      → IsSpent e.path s e w (send_or_wait n now e s o w)
  unfolding send_or_wait start_timer emit put_state
  send_or_wait-IsSpent now e s (some k) w q =
      let b : budget s ≡ 0 = ap (λ o. budget_of o s.count) q in
      record {
        events = rw b (sym (append-nil w.sent));
        state = (s, lookup-insert_self e.path s w, refl, rw b);
      }
  send_or_wait-IsSpent now e s none w q = elim (Bool-cases (ltb s.count burst_limit)) [
    | inl l ↦
        let b : budget s ≡ suc (2 - s.count) = ap (λ o. budget_of o s.count) q ∙ ground arith in
        record {
          events = rw (b, l);
          state = (
            record s { count = s.count + 1 },
            rw l (lookup-insert_self e.path (record s { count = s.count + 1 }) w),
            refl,
            ap (λ o. budget_of o (s.count + 1)) q ∙ rw b (ground arith),
          );
        }
    | inr l ↦
        let b : budget s ≡ 0 = ap (λ o. budget_of o s.count) q ∙ ground arith in
        record {
          events = rw (b, l) (sym (append-nil w.sent));
          state = (
            record s { timer = some w.next_key },
            rw l (lookup-insert_self e.path (record s { timer = some w.next_key }) w),
            refl,
            rw b,
          );
        }
  ]

  trigger-IsSpent :
      (now : ℕ) (e : WatchEvent) (s : DebounceState) (w : W n)
      → current_state now (lookup e.path w.debounce_states) ≡ s
      → IsSpent e.path s e w (trigger_debounced_notification n now e w)
  unfolding trigger_debounced_notification
  trigger-IsSpent now e s w h = rw h (send_or_wait-IsSpent now e s s.timer w refl)

  current_state_kept :
      (now : ℕ) (o : Option DebounceState) (s : DebounceState)
      → o ≡ some s
      → now ≤ s.window_end
      → current_state now o ≡ s
  unfolding current_state
  current_state_kept now none s h l = cc
  current_state_kept now (some x) s h l = ground arith

  -- While a path's window lasts and no timer fires, its events are sent at once until the budget is
  -- used up, and none after that.
  burst_in_window :
      (path : Text) (evs : List (ℕ × EventType)) (s : DebounceState) (w : W n)
      → lookup path w.debounce_states ≡ some s
      → All (λ ev. ev.0 ≤ s.window_end) evs
      → (trigger_all path evs w).sent ≡ w.sent ++ take (budget s) (events_of path evs)
  burst_in_window path [] s w h l = rw (take_nil (budget s)) (sym (append-nil w.sent))
  burst_in_window path ((t, ty) ∷ evs) s w h l =
      let e : WatchEvent = record { path = path; type = ty } in
      let r =
        trigger-IsSpent t e s w (current_state_kept t (lookup path w.debounce_states) s h l.0) in
      let (s', h', we, b) = r.state in
      burst_in_window path evs s' (trigger_debounced_notification n t e w) h' (rw we l.1)
      ∙ rw (r.events, b, take_cons (budget s) e (events_of path evs), append_assoc)

  -- Of the events of a path without a debounce state that come within a second of the first, the
  -- first three are sent at once and in order, and no other one is, as long as no timer fires.
  pub burst_exact :
      (path : Text) (t : ℕ) (ty : EventType) (evs : List (ℕ × EventType)) (w : W n)
      → lookup path w.debounce_states ≡ none
      → All (λ ev. ev.0 ≤ t + second) evs
      → (trigger_all path ((t, ty) ∷ evs) w).sent
        ≡ w.sent ++ take 3 (events_of path ((t, ty) ∷ evs))
  unfolding current_state
  burst_exact path t ty evs w h l =
      let e : WatchEvent = record { path = path; type = ty } in
      let r = trigger-IsSpent t e (fresh_state t) w (ap (current_state t) h) in
      let (s', h', we, b) = r.state in
      burst_in_window path evs s' (trigger_debounced_notification n t e w) h' (rw we l)
      ∙ rw (r.events, b, append_assoc)
