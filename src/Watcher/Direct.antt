-- ===== src/Watcher/Direct.antt =====
-- How the methods of server/fs/watcher.go change the reference count of a path.
use flit_el.Prelude.{
  ℕ, ◌+◌, ◌-◌, ◌≡◌, refl, ap, ◌∙◌, inl, inr, Bool, true, false, Option, none, some, [], arith, Text,
  text_eq, ltb, ◌==◌, ==_iff, if◌then◌else◌, Bool-cases,
}
use flit_el.Prelude.GoMap.{
  GoMap, lookup, insert, erase, lookup-insert, lookup-erase, lookup-map_values, option_map,
}
use flit_el.Filepath.{rel}
use flit_el.Watcher.Interface.{Fsnotify}
use flit_el.Watcher.{
  WatchInfo, DebounceState, W, get_or_create_watch, put_info, add_new, watch, unwatch, unwatch_info,
  decrement, drop_watch, stop_state, forget_debounce, add_pending, watch_pending, clear_pending,
  is_unused, info_or_new,
}

abbrev pub refs_of : Option WatchInfo → ℕ
refs_of none = 0
refs_of (some i) = i.ref_count

refs-info_or_new : (o : Option WatchInfo) → (info_or_new o).ref_count ≡ refs_of o
refs-info_or_new none = refl
refs-info_or_new (some i) = refl

unused_refs : (o : Option WatchInfo) → is_unused (info_or_new o) ≡ true → refs_of o ≡ 0
unfolding is_unused
unused_refs none h = refl
unused_refs (some i) h = ground arith

-- One for the path itself, and zero for another.
abbrev pub one_at : Text → Text → ℕ
one_at p q = if p == q then 1 else 0

module _ (n : Fsnotify) where
  open n use {State, add, remove}

  -- The reference count of a path.
  abbrev pub refs : Text → W n → ℕ
  refs p w = refs_of (lookup p w.watches)

  refs-insert :
      (p q : Text) (i : WatchInfo) (m : GoMap Text WatchInfo)
      → refs_of (lookup q (insert p i m)) ≡ (if p == q then i.ref_count else refs_of (lookup q m))
  refs-insert p q i m = ground (arith, lookup-insert p q i m)

  refs-erase :
      (p q : Text) (m : GoMap Text WatchInfo)
      → refs_of (lookup q (erase p m)) ≡ (if p == q then 0 else refs_of (lookup q m))
  refs-erase p q m = ground (arith, lookup-erase p q m)

  same_refs :
      (p q : Text) (w : W n)
      → (p == q) ≡ true
      → (info_or_new (lookup p w.watches)).ref_count ≡ refs q w
  same_refs p q w h =
      refs-info_or_new (lookup p w.watches) ∙ ap (λ (x : Text). refs x w) ((==_iff p q).0 h)

  refs-add_new :
      (p q : Text) (r : Bool × State) (w : W n)
      → is_unused (info_or_new (lookup p w.watches)) ≡ true
      → refs q
          (add_new n p
            (info_or_new (lookup p w.watches))
            r
            (record w { watches = insert p (info_or_new (lookup p w.watches)) w.watches })).1
        ≡ (if r.0 then refs q w + one_at p q else refs q w)
  unfolding add_new put_info
  refs-add_new p q (true, fs) w u =
      let i = info_or_new (lookup p w.watches) in
      refs-insert p q (record i { ref_count = i.ref_count + 1 }) (insert p i w.watches)
      ∙ ground (arith, same_refs p q w, refs-insert p q i w.watches)
  refs-add_new p q (false, fs) w u =
      let i = info_or_new (lookup p w.watches) in
      refs-erase p q (insert p i w.watches)
      ∙ ground (
        arith,
        same_refs p q w,
        refs-insert p q i w.watches,
        refs-info_or_new (lookup p w.watches),
        unused_refs (lookup p w.watches) u,
      )

  flag :
      (p q : Text) (r : Bool × State) (w : W n)
      → is_unused (info_or_new (lookup p w.watches)) ≡ true
      → (let i = info_or_new (lookup p w.watches) in
          let r' = add_new n p i r (record w { watches = insert p i w.watches }) in
          refs q r'.1 ≡ (if r'.0 then refs q w + one_at p q else refs q w))
  unfolding add_new
  flag p q (true, fs) w u = refs-add_new p q (true, fs) w u
  flag p q (false, fs) w u = refs-add_new p q (false, fs) w u

  -- Watch counts one more for its path where it succeeds, and changes no count where it does not.
  pub refs-watch :
      (p q : Text) (w : W n)
      → refs q (watch n p w).1 ≡ (if (watch n p w).0 then refs q w + one_at p q else refs q w)
  unfolding watch get_or_create_watch put_info
  refs-watch p q w =
      let i = info_or_new (lookup p w.watches) in
      elim (Bool-cases (is_unused i)) [
        | inl u ↦ rw u (flag p q (add p w.fs) w u)
        | inr u ↦ rw u (
            refs-insert p q (record i { ref_count = i.ref_count + 1 }) (insert p i w.watches)
            ∙ ground (arith, same_refs p q w, refs-insert p q i w.watches))
      ]

  refs-drop_watch :
      (p q : Text) (w : W n) → refs q (drop_watch n p w).1 ≡ (if p == q then 0 else refs q w)
  unfolding drop_watch forget_debounce
  refs-drop_watch p q w = state (lookup p w.debounce_states)
    where
      state :
          (o : Option DebounceState)
          → refs q (stop_state n p o (record w { watches = erase p w.watches }))
            ≡ (if p == q then 0 else refs q w)
      state none = refs-erase p q w.watches
      state (some s) = refs-erase p q w.watches

  refs-unwatch_info :
      (p q : Text) (o : Option WatchInfo) (w : W n)
      → lookup p w.watches ≡ o
      → refs q (unwatch_info n p o w).1 ≡ refs q w - one_at p q
  unfolding unwatch_info decrement put_info
  refs-unwatch_info p q none w e =
      ground (arith, same_refs p q w, ap (λ o. (info_or_new o).ref_count) e)
  refs-unwatch_info p q (some i) w e =
      let i' : WatchInfo = record i { ref_count = i.ref_count - 1 } in
      let own = ap (λ o. (info_or_new o).ref_count) e in
      elim (Bool-cases (ltb i.ref_count 1)) [
        | inl z ↦ rw z (ground (arith, same_refs p q w, own))
        | inr z ↦ elim (Bool-cases (is_unused i')) [
          | inl u ↦
              rw (z, u)
                (refs-drop_watch p q w
                  ∙ ground (arith, same_refs p q w, own, unused_refs (some i') u))
          | inr u ↦ rw (z, u) (refs-insert p q i' w.watches ∙ ground (arith, same_refs p q w, own))
        ]
      ]

  -- Unwatch counts one less for its path, if it was counted, whether it succeeds or not.
  pub refs-unwatch : (p q : Text) (w : W n) → refs q (unwatch n p w).1 ≡ refs q w - one_at p q
  unfolding unwatch
  refs-unwatch p q w = refs-unwatch_info p q (lookup p w.watches) w refl

  refs-add_pending :
      (a p q : Text) (o : Option WatchInfo) (r : Option Text) (w : W n)
      → lookup a w.watches ≡ o
      → refs q (add_pending n a p o r w) ≡ refs q w
  unfolding add_pending put_info
  refs-add_pending a p q none r w e = refl
  refs-add_pending a p q (some i) none w e = refl
  refs-add_pending a p q (some i) (some r) w e =
      refs-insert a q _ w.watches
      ∙ ground (arith, same_refs a q w, ap (λ o. (info_or_new o).ref_count) e)

  -- The pending paths do not change the counts.
  pub refs-watch_pending : (a p q : Text) (w : W n) → refs q (watch_pending n a p w) ≡ refs q w
  unfolding watch_pending
  refs-watch_pending a p q w = refs-add_pending a p q (lookup a w.watches) (rel a p) w refl

  pub refs-clear_pending : (q : Text) (w : W n) → refs q (clear_pending n w) ≡ refs q w
  unfolding clear_pending
  refs-clear_pending q w =
      ap refs_of (lookup-map_values (λ (i : WatchInfo). record i { pending = [] }) q w.watches)
      ∙ cleared (lookup q w.watches)
    where
      cleared :
          (o : Option WatchInfo)
          → refs_of (option_map (λ (i : WatchInfo). record i { pending = [] }) o) ≡ refs_of o
      cleared none = refl
      cleared (some i) = refl
