-- ===== src/Watcher/Counts.antt =====
-- Reference counts, and what ClearPending leaves: server/fs/watcher.go.
use flit_el.Prelude.{
  ℕ, zero, suc, ◌+◌, ◌-◌, ◌<◌, ◌≤◌, ◌≡◌, refl, sym, ap, ◌∙◌, Bool, true, false, Option, none, some,
  List, [], ◌∷◌, arith, Text, text_eq, ltb, ==_self,
}
use flit_el.Prelude.GoMap.{
  GoMap, lookup, insert, erase, lookup-insert, lookup-erase, lookup-map_values, lookup-empty,
  option_map,
}
use flit_el.Filepath.{rel, split_slash}
use flit_el.Watcher.Interface.{Fsnotify}
use flit_el.Watcher.{
  WatchInfo, DebounceState, W, get_or_create_watch, put_info, add_new, watch, unwatch, unwatch_info,
  decrement, drop_watch, stop_state, forget_debounce, add_pending, watch_pending, clear_pending,
  is_unused, first_or_empty,
}

lookup_inserted :
    (p : Text) (i : WatchInfo) (m : GoMap Text WatchInfo) → lookup p (insert p i m) ≡ some i
lookup_inserted p i m = rw (lookup-insert p p i m, ==_self p) refl

counted :
    (k : ℕ) (ps : GoMap Text (List Text))
    → 0 < k
    → is_unused (record { ref_count = k; pending = ps }) ≡ false
unfolding is_unused
counted k ps h = ground arith

positive : (k : ℕ) → 0 < k → ltb k 1 ≡ false
positive k h = ground arith

module _ (n : Fsnotify) where
  open n use {State, add, remove, watching}

  abbrev pub watch_times : ℕ → Text → W n → W n
  watch_times zero p w = w
  watch_times (suc k) p w = watch_times k p (watch n p w).1

  abbrev pub unwatch_times : ℕ → Text → W n → W n
  unwatch_times zero p w = w
  unwatch_times (suc k) p w = unwatch_times k p (unwatch n p w).1

  -- The entry of `p`, and whether fsnotify watches it.
  abbrev pub Holds : Text → ℕ → W n → Type 0
  Holds p k w =
      (lookup p w.watches ≡ some (record { ref_count = k; pending = [] }))
      × (watching p w.fs ≡ true)

  abbrev pub IsGone : Text → W n → Type 0
  IsGone p w = (lookup p w.watches ≡ none) × (watching p w.fs ≡ false)

  first_add :
      (p : Text) (w : W n) (r : Bool × State)
      → add p w.fs ≡ r
      → r.0 ≡ true
      → Holds p 1
          (add_new n p
            (record { ref_count = 0; pending = [] })
            r
            (record w { watches = insert p (record { ref_count = 0; pending = [] }) w.watches })).1
  unfolding add_new put_info
  first_add p w (true, fs) e t = (
    rw (
      lookup-insert p p (record { ref_count = 1; pending = [] })
          (insert p (record { ref_count = 0; pending = [] }) w.watches),
      ==_self p,
    ),
    ap (λ (r : Bool × State). watching p r.1) (sym e)
        ∙ n.watching-add p p w.fs (ap (λ (r : Bool × State). r.0) e)
        ∙ rw (==_self p),
  )
  first_add p w (false, fs) e t = cc t

  watch_new :
      (p : Text) (w : W n)
      → lookup p w.watches ≡ none
      → (add p w.fs).0 ≡ true
      → Holds p 1 (watch n p w).1
  unfolding watch get_or_create_watch is_unused
  watch_new p w h a = rw h (first_add p w (add p w.fs) refl a)

  watch_again : (p : Text) (k : ℕ) (w : W n) → 0 < k → Holds p k w → Holds p (k + 1) (watch n p w).1
  unfolding watch get_or_create_watch put_info
  watch_again p k w l h =
      rw (h.0, counted k [] l)
        (
          lookup_inserted p (record { ref_count = k + 1; pending = [] })
              (insert p (record { ref_count = k; pending = [] }) w.watches),
          h.1,
        )

  unwatch_held :
      (p : Text) (k : ℕ) (w : W n) → 1 < k → Holds p k w → Holds p (k - 1) (unwatch n p w).1
  unfolding unwatch unwatch_info decrement put_info
  unwatch_held p k w l h =
      rw (h.0, positive k (omega arith), counted (k - 1) [] (omega arith))
        (lookup_inserted p (record { ref_count = k - 1; pending = [] }) w.watches, h.1)

  unwatch_last : (p : Text) (w : W n) → Holds p 1 w → IsGone p (unwatch n p w).1
  unfolding unwatch unwatch_info decrement is_unused drop_watch forget_debounce
  unwatch_last p w h = rw h.0 (state (lookup p w.debounce_states))
    where
      gone : IsGone p (record w { watches = erase p w.watches; fs = (remove p w.fs).1 })
      gone = (
        rw (lookup-erase p p w.watches, ==_self p) refl,
        rw (n.watching-remove p p w.fs, ==_self p) refl,
      )

      state :
          (o : Option DebounceState)
          → IsGone p (record (stop_state n p o (record w { watches = erase p w.watches })) {
            fs = (remove p (stop_state n p o (record w { watches = erase p w.watches })).fs).1;
          })
      state none = gone
      state (some s) = gone

  -- Whether the last Unwatch succeeds is whether fsnotify does.
  pub unwatch_last_flag : (p : Text) (w : W n) → Holds p 1 w → (unwatch n p w).0 ≡ (remove p w.fs).0
  unfolding unwatch unwatch_info decrement is_unused drop_watch forget_debounce
  unwatch_last_flag p w h = rw h.0 (state (lookup p w.debounce_states))
    where
      state :
          (o : Option DebounceState)
          → (remove p (stop_state n p o (record w { watches = erase p w.watches })).fs).0
            ≡ (remove p w.fs).0
      state none = refl
      state (some s) = refl

  recount : (p : Text) (j k : ℕ) (w : W n) → j ≡ k → Holds p j w → Holds p k w
  recount p j k w e h = rw (sym e) h

  watched :
      (k j : ℕ) (p : Text) (w : W n) → 0 < j → Holds p j w → Holds p (k + j) (watch_times k p w)
  watched zero j p w l h = recount p j (0 + j) w (omega arith) h
  watched (suc k) j p w l h =
      recount p (k + (j + 1)) (suc k + j) (watch_times (suc k) p w) (omega arith)
        (watched k (j + 1) p (watch n p w).1 (omega arith) (watch_again p j w l h))

  unwatched :
      (j k : ℕ) (p : Text) (w : W n) → j < k → Holds p k w → Holds p (k - j) (unwatch_times j p w)
  unwatched zero k p w l h = recount p k (k - 0) w (omega arith) h
  unwatched (suc j) k p w l h =
      recount p (k - 1 - j) (k - suc j) (unwatch_times (suc j) p w) (omega arith)
        (unwatched j (k - 1) p (unwatch n p w).1 (omega arith) (unwatch_held p k w (omega arith) h))

  unwatch_times-suc :
      (k : ℕ) (p : Text) (w : W n)
      → unwatch_times (suc k) p w ≡ (unwatch n p (unwatch_times k p w)).1
  unwatch_times-suc zero p w = refl
  unwatch_times-suc (suc k) p w = unwatch_times-suc k p (unwatch n p w).1

  -- After k + 1 calls of Watch for a path without an entry, the first of which fsnotify accepts, and
  -- j ≤ k calls of Unwatch, the path's entry counts the k + 1 - j that are left and fsnotify watches
  -- it; after k + 1 calls of Unwatch the entry is gone and fsnotify does not watch the path.
  pub held_until_last :
      (p : Text) (k j : ℕ) (w : W n)
      → lookup p w.watches ≡ none
      → (add p w.fs).0 ≡ true
      → j ≤ k
      → Holds p (k + 1 - j) (unwatch_times j p (watch_times (suc k) p w))
        × IsGone p (unwatch_times (suc k) p (watch_times (suc k) p w))
  held_until_last p k j w h a l =
      let w1 = watch_times (suc k) p w in
      let all = watched k 1 p (watch n p w).1 (omega arith) (watch_new p w h a) in
      (
        unwatched j (k + 1) p w1 (omega arith) all,
        rw (unwatch_times-suc k p w1) (
            unwatch_last p (unwatch_times k p w1) (
              recount p (k + 1 - k) 1 (unwatch_times k p w1) (omega arith)
                (unwatched k (k + 1) p w1 (omega arith) all))),
      )

  abbrev one_pending : Text → Text → GoMap Text (List Text)
  one_pending c q = insert c (q ∷ []) []

  abbrev HasEntry : Text → WatchInfo → W n → Type 0
  HasEntry p i w = (lookup p w.watches ≡ some i) × (watching p w.fs ≡ true)

  pending_entry :
      (p q r : Text) (w : W n)
      → rel p q ≡ some r
      → Holds p 1 w
      → HasEntry p
          (record { ref_count = 1; pending = one_pending (first_or_empty n (split_slash r)) q })
          (watch_pending n p q w)
  unfolding watch_pending add_pending put_info
  pending_entry p q r w e h =
      let c = first_or_empty n (split_slash r) in
      rw (h.0, e, lookup-empty {V = List Text} c)
        (lookup_inserted p (record { ref_count = 1; pending = one_pending c q }) w.watches, h.1)

  unwatch_pending :
      (p q c : Text) (w : W n)
      → HasEntry p (record { ref_count = 1; pending = one_pending c q }) w
      → HasEntry p (record { ref_count = 0; pending = one_pending c q }) (unwatch n p w).1
  unfolding unwatch unwatch_info decrement is_unused put_info insert
  unwatch_pending p q c w h =
      rw h.0
        (lookup_inserted p (record { ref_count = 0; pending = one_pending c q }) w.watches, h.1)

  clear_entry :
      (p q c : Text) (w : W n)
      → HasEntry p (record { ref_count = 0; pending = one_pending c q }) w
      → Holds p 0 (clear_pending n w)
  unfolding clear_pending
  clear_entry p q c w h = (
    lookup-map_values (λ (i : WatchInfo). record i { pending = [] }) p w.watches
        ∙ ap (option_map (λ (i : WatchInfo). record i { pending = [] })) h.0,
    h.1,
  )

  unwatch_unused : (p : Text) (w : W n) → Holds p 0 w → unwatch n p w ≡ (true, w)
  unfolding unwatch unwatch_info
  unwatch_unused p w h = rw h.0 refl

  -- After Watch of a path without an entry that fsnotify accepts, WatchPending of a path below it,
  -- Unwatch of it and ClearPending, the path's entry is still there with count 0 and no pending paths,
  -- fsnotify still watches the path, and another Unwatch changes nothing.
  pub clear_pending_leaks :
      (p q r : Text) (w : W n)
      → lookup p w.watches ≡ none
      → (add p w.fs).0 ≡ true
      → rel p q ≡ some r
      → (let w1 = clear_pending n (unwatch n p (watch_pending n p q (watch n p w).1)).1 in
          Holds p 0 w1 × (unwatch n p w1 ≡ (true, w1)))
  clear_pending_leaks p q r w h a e =
      let w1 = watch_pending n p q (watch n p w).1 in
      let c = first_or_empty n (split_slash r) in
      let left =
        clear_entry p q c (unwatch n p w1).1
          (unwatch_pending p q c w1 (pending_entry p q r (watch n p w).1 e (watch_new p w h a))) in
      (left, unwatch_unused p (clear_pending n (unwatch n p w1).1) left)
