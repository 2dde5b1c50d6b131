-- ===== src/Watcher/Sound.antt =====
-- The entries of `watches` and what fsnotify has registered: server/fs/watcher.go.
use flit_el.Prelude.{
  ◌+◌, ◌-◌, ◌≡◌, refl, sym, ap, ◌∙◌, inl, inr, Bool, true, false, Option, none, some, [], arith,
  Text, text_eq, ltb, ==_iff, Bool-cases,
}
use flit_el.Prelude.GoMap.{
  lookup, insert, erase, lookup-insert, lookup-erase, lookup-map_values, lookup-empty, option_map,
}
use flit_el.Filepath.{rel}
use flit_el.Watcher.Interface.{Fsnotify}
use flit_el.Watcher.{
  WatchInfo, W, DebounceState, new_watcher, put_info, forget_debounce, stop_state, watch, add_new,
  watch_pending, add_pending, clear_pending, unwatch, unwatch_info, decrement, drop_watch,
  clean_up_ancestor, pop_pending, pop_pending_for_child, is_unused, info_or_new,
}

module _ (n : Fsnotify) where
  open n use {State, add, remove, watching}

  pub record IsSound (w : W n) : Type 0 where
    pub at :
        (p : Text) (info : WatchInfo) → lookup p w.watches ≡ some info → n.watching p w.fs ≡ true

  pub insert-IsSound :
      (p : Text) (i : WatchInfo) (w : W n)
      → IsSound w
      → watching p w.fs ≡ true
      → IsSound (record w { watches = insert p i w.watches })
  insert-IsSound p i w v h = record {
    at = λ q info e. ground (arith, lookup-insert p q i w.watches, v.at q info, ==_iff p q);
  }

  pub erase-IsSound :
      (p : Text) (w : W n) → IsSound w → IsSound (record w { watches = erase p w.watches })
  erase-IsSound p w v = record {
    at = λ q info e. ground (arith, lookup-erase p q w.watches, v.at q info);
  }

  pub add-IsSound : (p : Text) (w : W n) → IsSound w → IsSound (record w { fs = (add p w.fs).1 })
  add-IsSound p w v = record {
    at = λ q info e. elim (Bool-cases (add p w.fs).0) [
      | inl t ↦ ground (arith, n.watching-add p q w.fs, v.at q info)
      | inr f ↦ n.watching-add_failed p q w.fs f ∙ v.at q info e
    ];
  }

  -- A path that is registered stays so when another is added.
  pub watching-add_kept :
      (p q : Text) (fs : State) → watching q fs ≡ true → watching q (add p fs).1 ≡ true
  watching-add_kept p q fs h = elim (Bool-cases (add p fs).0) [
    | inl t ↦ ground (arith, n.watching-add p q fs t)
    | inr f ↦ n.watching-add_failed p q fs f ∙ h
  ]

  pub remove-IsSound :
      (p : Text) (w : W n)
      → IsSound w
      → IsSound (record w { watches = erase p w.watches; fs = (remove p w.fs).1 })
  remove-IsSound p w v = record {
    at = λ q info e.
        ground (arith, lookup-erase p q w.watches, n.watching-remove p q w.fs, v.at q info);
  }

  pub new_watcher-IsSound : (fs : State) → IsSound (new_watcher n fs)
  unfolding new_watcher
  new_watcher-IsSound fs = record { at = λ p info e. cc (lookup-empty {V = WatchInfo} p) }

  add_new-IsSound :
      (p : Text) (i : WatchInfo) (w : W n) (r : Bool × State)
      → add p w.fs ≡ r
      → IsSound w
      → IsSound (add_new n p i r (record w { watches = insert p i w.watches })).1
  unfolding add_new put_info
  add_new-IsSound p i w (true, fs) e v = record {
    at = λ q info h. ground (
      arith,
      lookup-insert p q i w.watches,
      lookup-insert p q (record i { ref_count = i.ref_count + 1 }) (insert p i w.watches),
      n.watching-add p q w.fs (ap (λ (r : Bool × State). r.0) e),
      ap (λ (r : Bool × State). watching q r.1) e,
      v.at q info,
    );
  }
  add_new-IsSound p i w (false, fs) e v = record {
    at = λ q info h. ground (
      arith,
      lookup-erase p q (insert p i w.watches),
      lookup-insert p q i w.watches,
      n.watching-add_failed p q w.fs (ap (λ (r : Bool × State). r.0) e),
      ap (λ (r : Bool × State). watching q r.1) e,
      v.at q info,
    );
  }

  -- An entry that is in use was there before.
  pub used-watching :
      (p : Text) (w : W n) (o : Option WatchInfo)
      → IsSound w
      → lookup p w.watches ≡ o
      → is_unused (info_or_new o) ≡ false
      → watching p w.fs ≡ true
  unfolding is_unused
  used-watching p w none v e u = cc u
  used-watching p w (some info) v e u = v.at p info e

  pub watch-IsSound : (p : Text) (w : W n) → IsSound w → IsSound (watch n p w).1
  unfolding watch put_info
  watch-IsSound p w v =
      let info = info_or_new (lookup p w.watches) in
      elim (Bool-cases (is_unused info)) [
        | inl u ↦ rw u (add_new-IsSound p info w (add p w.fs) refl v)
        | inr u ↦
            let h = used-watching p w (lookup p w.watches) v refl u in
            rw u (
              insert-IsSound p _ (record w { watches = insert p info w.watches })
                (insert-IsSound p info w v h) h)
      ]

  add_pending-IsSound :
      (a p : Text) (w : W n) (o : Option WatchInfo) (r : Option Text)
      → IsSound w
      → lookup a w.watches ≡ o
      → IsSound (add_pending n a p o r w)
  unfolding add_pending put_info
  add_pending-IsSound a p w none r v e = v
  add_pending-IsSound a p w (some info) none v e = v
  add_pending-IsSound a p w (some info) (some r) v e = insert-IsSound a _ w v (v.at a info e)

  pub watch_pending-IsSound : (a p : Text) (w : W n) → IsSound w → IsSound (watch_pending n a p w)
  unfolding watch_pending
  watch_pending-IsSound a p w v = add_pending-IsSound a p w (lookup a w.watches) (rel a p) v refl

  cleared_entry :
      (q : Text) (info : WatchInfo) (w : W n) (o : Option WatchInfo)
      → IsSound w
      → lookup q w.watches ≡ o
      → option_map (λ (i : WatchInfo). record i { pending = [] }) o ≡ some info
      → watching q w.fs ≡ true
  cleared_entry q info w none v e h = cc h
  cleared_entry q info w (some i) v e h = v.at q i e

  pub clear_pending-IsSound : (w : W n) → IsSound w → IsSound (clear_pending n w)
  unfolding clear_pending
  clear_pending-IsSound w v = record {
    at = λ q info e.
        cleared_entry q info w (lookup q w.watches) v refl
          (sym (lookup-map_values (λ (i : WatchInfo). record i { pending = [] }) q w.watches) ∙ e);
  }

  drop_watch-IsSound : (p : Text) (w : W n) → IsSound w → IsSound (drop_watch n p w).1
  unfolding drop_watch forget_debounce
  drop_watch-IsSound p w v = state (lookup p w.debounce_states)
    where
      state :
          (o : Option DebounceState)
          → IsSound (record (stop_state n p o (record w { watches = erase p w.watches })) {
            fs = (remove p (stop_state n p o (record w { watches = erase p w.watches })).fs).1;
          })
      state none = remove-IsSound p w v
      state (some s) = record { at = (remove-IsSound p w v).at }

  pub clean_up-IsSound :
      (p : Text) (i : WatchInfo) (w : W n)
      → IsSound w
      → watching p w.fs ≡ true
      → IsSound (clean_up_ancestor n p i w)
  unfolding clean_up_ancestor put_info
  clean_up-IsSound p i w v h = elim (Bool-cases (is_unused i)) [
    | inl e ↦ rw (e) (drop_watch-IsSound p w v)
    | inr e ↦ rw (e) (insert-IsSound p i w v h)
  ]

  decrement-IsSound :
      (p : Text) (i : WatchInfo) (w : W n)
      → IsSound w
      → watching p w.fs ≡ true
      → IsSound (decrement n p i w).1
  unfolding decrement put_info
  decrement-IsSound p i w v h =
      elim (Bool-cases (is_unused (record i { ref_count = i.ref_count - 1 }))) [
        | inl e ↦ rw e (drop_watch-IsSound p w v)
        | inr e ↦ rw e (insert-IsSound p _ w v h)
      ]

  unwatch_info-IsSound :
      (p : Text) (o : Option WatchInfo) (w : W n)
      → lookup p w.watches ≡ o
      → IsSound w
      → IsSound (unwatch_info n p o w).1
  unfolding unwatch_info
  unwatch_info-IsSound p none w e v = v
  unwatch_info-IsSound p (some i) w e v = elim (Bool-cases (ltb i.ref_count 1)) [
    | inl z ↦ rw z v
    | inr z ↦ rw z (decrement-IsSound p i w v (v.at p i e))
  ]

  pub unwatch-IsSound : (p : Text) (w : W n) → IsSound w → IsSound (unwatch n p w).1
  unfolding unwatch
  unwatch-IsSound p w v = unwatch_info-IsSound p (lookup p w.watches) w refl v

  pop_pending-IsSound :
      (a c : Text) (w : W n) (o : Option WatchInfo)
      → IsSound w
      → lookup a w.watches ≡ o
      → IsSound (pop_pending n a c o w).1
  unfolding pop_pending
  pop_pending-IsSound a c w none v e = v
  pop_pending-IsSound a c w (some i) v e = clean_up-IsSound a _ w v (v.at a i e)

  pub pop_pending_for_child-IsSound :
      (a c : Text) (w : W n) → IsSound w → IsSound (pop_pending_for_child n a c w).1
  unfolding pop_pending_for_child
  pop_pending_for_child-IsSound a c w v = pop_pending-IsSound a c w (lookup a w.watches) v refl
