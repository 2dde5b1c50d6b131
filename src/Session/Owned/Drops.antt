-- ===== src/Session/Owned/Drops.antt =====
-- Dropped watches, open files and cleared state, and which watches a session holds:
-- server/server/jsonrpc.go.
use flit_el.Prelude.{
  ℕ, ◌-◌, ◌≤◌, ◌≡◌, refl, ap, ◌∙◌, inl, inr, Bool, true, false, Option, none, some, [], ◌∷◌, arith,
  Text, text_eq, Bool-cases, Option-cases,
}
use flit_el.Prelude.GoMap.{GoMap, lookup, erase, lookup-insert, lookup-erase, lookup-empty}
use flit_el.Prelude.Int64.{ℤ}
use flit_el.Watcher.Interface.{Fsnotify}
use flit_el.Watcher.{W, clear_pending, unwatch as watcher_unwatch, watch_file as watcher_watch_file}
use flit_el.Watcher.Direct.{refs, one_at, refs-unwatch, refs-clear_pending}
use flit_el.Session.{
  WatchMeta, S, is_some, no_meta, drop_watched, unwatch_watched, unwatch, change_meta,
  update_file_state, mark_open, open_watched, open_file, close_file, mark_dir_listed,
  should_rich_fetch, unwatch_all, clear_cache_state,
}
use flit_el.Session.Owned.{
  refs_in, IsOwned, keep_watched-IsOwned, watch_file-Counts, held, held_small,
}

module _ (n : Fsnotify) where
  drop_watched-IsOwned :
      (path : Text) (sess : S n) (w : W n) (r : Bool × W n)
      → IsOwned n sess
      → sess.watcher ≡ some w
      → ((q : Text) → refs n q r.1 ≡ refs n q w - one_at path q)
      → IsOwned n (drop_watched n path sess r).1
  unfolding drop_watched
  drop_watched-IsOwned path sess w (true, w') v e c = record {
    at = λ q. ground (
      arith,
      c q,
      v.at q,
      ap (refs_in n q) e,
      held_small (lookup q sess.watched_paths),
      lookup-erase path q sess.watched_paths,
    );
  }
  drop_watched-IsOwned path sess w (false, w') v e c = record {
    at = λ q. ground (arith, c q, v.at q, ap (refs_in n q) e);
  }

  unwatch_watched-IsOwned :
      (path : Text) (sess : S n) (o : Option (W n))
      → IsOwned n sess
      → sess.watcher ≡ o
      → IsOwned n (unwatch_watched n path sess o).1
  unfolding unwatch_watched
  unwatch_watched-IsOwned path sess none v e = v
  unwatch_watched-IsOwned path sess (some w) v e =
      elim (Bool-cases (is_some (lookup path sess.watched_paths))) [
        | inl h ↦ rw h (
            drop_watched-IsOwned path sess w (watcher_unwatch n path w) v e
              (λ q. refs-unwatch n path q w))
        | inr h ↦ rw h v
      ]

  pub unwatch-IsOwned :
      (path : Text) (sess : S n) → IsOwned n sess → IsOwned n (unwatch n path sess).1
  unfolding unwatch
  unwatch-IsOwned path sess v = unwatch_watched-IsOwned path sess sess.watcher v refl

  pub close_file-IsOwned :
      (path : Text) (sess : S n) → IsOwned n sess → IsOwned n (close_file n path sess).1
  unfolding close_file
  close_file-IsOwned path sess v =
      unwatch_watched-IsOwned path (record sess { open_files = erase path sess.open_files })
        sess.watcher (record { at = v.at }) refl

  change_meta-IsOwned :
      (f : WatchMeta → WatchMeta) (path : Text) (sess : S n)
      → IsOwned n sess
      → IsOwned n (change_meta n f path sess)
  unfolding change_meta
  change_meta-IsOwned f path sess v = elim (Option-cases (lookup path sess.watched_paths)) [
    | inl e ↦ rw (e, change_meta) v
    | inr (m, e) ↦
        rw (e, change_meta)
          (record {
            at = λ q. ground (
              arith,
              v.at q,
              held_small (lookup q sess.watched_paths),
              lookup-insert path q (f m) sess.watched_paths,
            );
          })
  ]

  open_watched-IsOwned :
      (path : Text) (mtime size : ℤ) (sess : S n) (o : Option (W n))
      → IsOwned n sess
      → sess.watcher ≡ o
      → IsOwned n (open_watched n path mtime size sess o).1
  unfolding open_watched update_file_state mark_open
  open_watched-IsOwned path mtime size sess none v e = v
  open_watched-IsOwned path mtime size sess (some w) v e =
      let sess' = mark_open n path sess in
      let v' : IsOwned n sess' = record { at = v.at } in
      elim (Bool-cases (is_some (lookup path sess.watched_paths))) [
        | inl h ↦
            rw h (change_meta-IsOwned (λ m. record m { mtime = mtime; size = size }) path sess' v')
        | inr h ↦ rw h (
            keep_watched-IsOwned n path (record no_meta { mtime = mtime; size = size }) sess' w
              (watcher_watch_file n path w) v' e h (watch_file-Counts n path w))
      ]

  pub open_file-IsOwned :
      (path : Text) (mtime size : ℤ) (sess : S n)
      → IsOwned n sess
      → IsOwned n (open_file n path mtime size sess).1
  unfolding open_file
  open_file-IsOwned path mtime size sess v =
      open_watched-IsOwned path mtime size sess sess.watcher v refl

  pub update_file_state-IsOwned :
      (path : Text) (mtime size : ℤ) (sess : S n)
      → IsOwned n sess
      → IsOwned n (update_file_state n path mtime size sess)
  unfolding update_file_state
  update_file_state-IsOwned path mtime size sess v = change_meta-IsOwned _ path sess v

  pub mark_dir_listed-IsOwned :
      (path : Text) (sess : S n) → IsOwned n sess → IsOwned n (mark_dir_listed n path sess)
  unfolding mark_dir_listed
  mark_dir_listed-IsOwned path sess v = change_meta-IsOwned _ path sess v

  pub should_rich_fetch-IsOwned :
      (path : Text) (k limit : ℕ) (sess : S n)
      → IsOwned n sess
      → IsOwned n (should_rich_fetch n path k limit sess).1
  unfolding should_rich_fetch
  should_rich_fetch-IsOwned path k limit sess v = record { at = λ q. ground (arith, v.at q) }

  refs-unwatch_all :
      (q : Text) (ps : GoMap Text WatchMeta) (w : W n)
      → refs n q (unwatch_all n ps w) ≤ refs n q w - held (lookup q ps)
  unfolding unwatch_all lookup
  refs-unwatch_all q [] w = omega arith
  refs-unwatch_all q ((p, m) ∷ ps) w =
      ground (arith, refs-unwatch_all q ps (watcher_unwatch n p w).1, refs-unwatch n p q w)

  -- After ClearCacheState no path is watched directly any more, neither by the session nor by its
  -- watcher, if before the watcher counted only what the session recorded.
  pub clear_cache_state_unwatches :
      (sess : S n) (q : Text)
      → IsOwned n sess
      → (refs_in n q (clear_cache_state n sess).watcher ≡ 0)
        × (lookup q (clear_cache_state n sess).watched_paths ≡ none)
  unfolding clear_cache_state
  clear_cache_state_unwatches sess q v = (cleared sess.watcher (v.at q), lookup-empty q)
    where
      cleared :
          (o : Option (W n))
          → refs_in n q o ≤ held (lookup q sess.watched_paths)
          → refs_in n q (elim o [
            | none ↦ none
            | some w ↦ some (clear_pending n (unwatch_all n sess.watched_paths w))
          ])
            ≡ 0
      cleared none h = refl
      cleared (some w) h =
          refs-clear_pending n q (unwatch_all n sess.watched_paths w)
          ∙ omega (arith, refs-unwatch_all q sess.watched_paths w)
