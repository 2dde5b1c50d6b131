-- ===== src/Watcher/Events/ParentKeeps.antt =====
-- Waiting on a parent, and what fsnotify has registered: server/fs/watcher.go.
use flit_el.Prelude.{
  ◌≡◌, refl, sym, ap, ◌∙◌, inl, inr, Bool, true, false, some, List, [], ◌∷◌, ◌++◌, arith, Text,
  text_eq, ==_self, Bool-cases,
}
use mathlib.Core.Path.{subst}
use flit_el.Prelude.GoMap.{lookup, insert, erase, lookup-insert, lookup-erase}
use flit_el.Filepath.{dir, base}
use flit_el.Watcher.Interface.{Fsnotify}
use flit_el.Watcher.{
  WatchInfo, modified, W, get_or_create_watch, put_info, is_unused, info_or_new, list_or_nil,
  set_pending,
}
use flit_el.Watcher.Sound.{
  IsSound, insert-IsSound, add-IsSound, used-watching, clean_up-IsSound, watching-add_kept,
}
use flit_el.Watcher.Events.{
  Stat, found, not_exist, stat_failed, add_again, with_info, undo_pending, recreated, drop_pending,
  remove_first, check_again, after_add, watch_parent_for_pending,
}
use flit_el.Watcher.Events.NotifyKeeps.{emit-IsSound, add_again-IsSound}

module _ (n : Fsnotify) where
  open n use {State, add, watching}

  -- An entry that is looked up, or made anew, where the path is registered.
  at_info :
      (p : Text) (f : WatchInfo → W n → W n) (w : W n)
      → ((i : WatchInfo) → IsSound n (f i w))
      → IsSound n (with_info n p f w)
  unfolding with_info
  at_info p f w h = h (info_or_new (lookup p w.watches))

  drop_pending-IsSound :
      (parent child p : Text) (i : WatchInfo) (w : W n)
      → IsSound n w
      → watching parent w.fs ≡ true
      → IsSound n (drop_pending n parent child p i w)
  unfolding drop_pending
  drop_pending-IsSound parent child p i w v h =
      clean_up-IsSound n parent
        (set_pending child (remove_first p (list_or_nil (lookup child i.pending))) i) w v h

  kept : (p q : Text) (w : W n) → watching q w.fs ≡ true → watching q (add_again n p w).fs ≡ true
  unfolding add_again
  kept p q w h = watching-add_kept n p q w.fs h

  recreated-IsSound :
      (parent child p : Text) (w : W n)
      → IsSound n w
      → watching parent w.fs ≡ true
      → IsSound n (recreated n parent child p w)
  unfolding recreated
  recreated-IsSound parent child p w v h =
      emit-IsSound n (record { path = p; type = modified })
        (with_info n parent (drop_pending n parent child p) (add_again n p w))
        (at_info parent (drop_pending n parent child p) (add_again n p w) (λ i.
          drop_pending-IsSound parent child p i (add_again n p w) (add_again-IsSound n p w v)
            (kept p parent w h)))

  check_again-IsSound :
      (stat : Stat) (parent child p : Text) (w : W n)
      → IsSound n w
      → watching parent w.fs ≡ true
      → IsSound n (check_again n stat parent child p w).1
  unfolding check_again
  check_again-IsSound found parent child p w v h = recreated-IsSound parent child p w v h
  check_again-IsSound not_exist parent child p w v h = v
  check_again-IsSound stat_failed parent child p w v h = v

  -- Undoing the pending path of an entry that was unused leaves it unused.
  undone_unused :
      (child : Text) (ps : List Text) (i : WatchInfo)
      → is_unused i ≡ true
      → is_unused (record i { pending = erase child (insert child ps i.pending) }) ≡ true
  unfolding is_unused insert lookup
  undone_unused child ps i u = ground (arith, ==_self child)

  pending_entry : Text → Text → WatchInfo → WatchInfo
  pending_entry child p i = record i {
    pending = insert child (list_or_nil (lookup child i.pending) ++ p ∷ []) i.pending;
  }

  with_undone :
      (parent child p : Text) (i : WatchInfo) (w : W n)
      → is_unused i ≡ true
      → lookup parent w.watches ≡ some (pending_entry child p i)
      → IsSound n (record w { watches = erase parent w.watches })
      → IsSound n (with_info n parent (undo_pending n parent child) w)
  unfolding with_info undo_pending pending_entry
  with_undone parent child p i w u h v =
      rw (h, undone_unused child (list_or_nil (lookup child i.pending) ++ p ∷ []) i u) v

  after_add-IsSound :
      (stat : Stat) (parent child p : Text) (i : WatchInfo) (r : Bool × State) (w : W n)
      → is_unused i ≡ true
      → add parent w.fs ≡ r
      → IsSound n w
      → IsSound n
          (after_add n stat parent child p r
            (put_info n parent (pending_entry child p i) (put_info n parent i w))).1
  unfolding after_add put_info
  after_add-IsSound stat parent child p i (true, fs) w u e v =
      let at : watching parent fs ≡ true =
        ap (λ (x : Bool × State). watching parent x.1) (sym e)
        ∙ n.watching-add parent parent w.fs (ap (λ (x : Bool × State). x.0) e)
        ∙ rw (==_self parent) refl in
      let s : IsSound n (record w { fs = fs }) =
        subst (λ (x : Bool × State). IsSound n (record w { fs = x.1 })) e
          (add-IsSound n parent w v) in
      check_again-IsSound stat parent child p _
        (insert-IsSound n parent (pending_entry child p i) _
          (insert-IsSound n parent i (record w { fs = fs }) s at) at)
        at
  after_add-IsSound stat parent child p i (false, fs) w u e v =
      with_undone parent child p i _ u
        (rw (
          lookup-insert parent parent (pending_entry child p i) (insert parent i w.watches),
          ==_self parent,
        ))
        (record {
          at = λ q info h. ground (
            arith,
            lookup-erase parent q
                (insert parent (pending_entry child p i) (insert parent i w.watches)),
            lookup-insert parent q (pending_entry child p i) (insert parent i w.watches),
            lookup-insert parent q i w.watches,
            n.watching-add_failed parent q w.fs (ap (λ (x : Bool × State). x.0) e),
            ap (λ (x : Bool × State). watching q x.1) e,
            v.at q info,
          );
        })

  pub watch_parent-IsSound :
      (stat : Stat) (p : Text) (w : W n)
      → IsSound n w
      → IsSound n (watch_parent_for_pending n stat p w).1
  unfolding watch_parent_for_pending get_or_create_watch put_info pending_entry
  watch_parent-IsSound stat p w v =
      let i = info_or_new (lookup (dir p) w.watches) in
      elim (Bool-cases (is_unused i)) [
        | inl u ↦ rw u (after_add-IsSound stat (dir p) (base p) p i (add (dir p) w.fs) w u refl v)
        | inr u ↦
            let h = used-watching n (dir p) w (lookup (dir p) w.watches) v refl u in
            rw u (
              check_again-IsSound stat (dir p) (base p) p _
                (insert-IsSound n (dir p) (pending_entry (base p) p i) _
                  (insert-IsSound n (dir p) i w v h) h)
                h)
      ]
