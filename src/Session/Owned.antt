-- ===== src/Session/Owned.antt =====
-- The watches that a session holds and those that it records: server/server/jsonrpc.go.
pub mod Reachable
pub mod Drops
use flit_el.Prelude.{
  ℕ, ◌+◌, ◌-◌, ◌≤◌, ◌≡◌, refl, sym, ap, ◌∙◌, inl, inr, Bool, true, false, Option, none, some, [],
  ◌∷◌, arith, Text, text_eq, ◌==◌, ==_iff, if◌then◌else◌, Bool-cases, Option-cases,
}
use flit_el.Prelude.GoMap.{GoMap, lookup, erase, lookup-insert, lookup-erase, lookup-empty}
use flit_el.Prelude.Int64.{ℤ}
use flit_el.Watcher.Interface.{Fsnotify}
use flit_el.Watcher.{
  W, WatchInfo, new_watcher, clear_pending, watch_pending, watch as watcher_watch,
  unwatch as watcher_unwatch, watch_file as watcher_watch_file, watch_dir as watcher_watch_dir,
}
use flit_el.Watcher.Direct.{
  refs, one_at, refs-watch, refs-unwatch, refs-watch_pending, refs-clear_pending,
}
use flit_el.Session.{
  WatchMeta, S, is_some, no_meta, is_no_watch_path, new_session, keep_watched, watch_once, watch,
  watch_allowed, watch_file, watch_dir, register_pending, watch_pending_under, drop_watched,
  unwatch_watched, unwatch, change_meta, update_file_state, mark_open, open_watched, open_file,
  close_file, mark_dir_listed, should_rich_fetch, unwatch_all, clear_cache_state,
}

abbrev pub held : Option WatchMeta → ℕ
held none = 0
held (some m) = 1

not_held : (o : Option WatchMeta) → is_some o ≡ false → held o ≡ 0
not_held none h = refl
not_held (some m) h = cc

is_held : (o : Option WatchMeta) → is_some o ≡ true → held o ≡ 1
is_held none h = cc
is_held (some m) h = refl

pub held_small : (o : Option WatchMeta) → held o ≤ 1
held_small none = omega arith
held_small (some m) = omega arith

module _ (n : Fsnotify) where
  abbrev pub refs_in : Text → Option (W n) → ℕ
  refs_in q none = 0
  refs_in q (some w) = refs n q w

  -- The session's watcher counts a path once at most, and only one that the session records.
  pub record IsOwned (sess : S n) : Type 0 where
    pub at : (q : Text) → refs_in q sess.watcher ≤ held (lookup q sess.watched_paths)

  -- What the watcher's Watch does to the counts.
  abbrev Counts : Text → W n → Bool × W n → Type 0
  Counts path w r =
      (q : Text) → refs n q r.1 ≡ (if r.0 then refs n q w + one_at path q else refs n q w)

  free :
      (path q : Text) (m : GoMap Text WatchMeta)
      → is_some (lookup path m) ≡ false
      → (path == q) ≡ true
      → held (lookup q m) ≡ 0
  free path q m h e =
      ap (λ (x : Text). held (lookup x m)) (sym ((==_iff path q).0 e)) ∙ not_held (lookup path m) h

  pub keep_watched-IsOwned :
      (path : Text) (meta : WatchMeta) (sess : S n) (w : W n) (r : Bool × W n)
      → IsOwned sess
      → sess.watcher ≡ some w
      → is_some (lookup path sess.watched_paths) ≡ false
      → Counts path w r
      → IsOwned (keep_watched n path meta sess r).1
  unfolding keep_watched
  keep_watched-IsOwned path meta sess w (true, w') v e h c = record {
    at = λ q. ground (
      arith,
      c q,
      v.at q,
      ap (refs_in q) e,
      free path q sess.watched_paths h,
      lookup-insert path q meta sess.watched_paths,
    );
  }
  keep_watched-IsOwned path meta sess w (false, w') v e h c = record {
    at = λ q. ground (arith, c q, v.at q, ap (refs_in q) e);
  }

  watch_once-IsOwned :
      (f : Text → W n → Bool × W n) (path : Text) (sess : S n) (o : Option (W n))
      → ((w : W n) → Counts path w (f path w))
      → IsOwned sess
      → sess.watcher ≡ o
      → IsOwned (watch_once n f path sess o).1
  unfolding watch_once
  watch_once-IsOwned f path sess none c v e = v
  watch_once-IsOwned f path sess (some w) c v e =
      elim (Bool-cases (is_some (lookup path sess.watched_paths))) [
        | inl h ↦ rw h v
        | inr h ↦ rw h (keep_watched-IsOwned path no_meta sess w (f path w) v e h (c w))
      ]

  watch_allowed-IsOwned :
      (f : Text → W n → Bool × W n) (path : Text) (sess : S n) (o : Option (W n))
      → ((w : W n) → Counts path w (f path w))
      → IsOwned sess
      → sess.watcher ≡ o
      → IsOwned (watch_allowed n f path sess o).1
  unfolding watch_allowed
  watch_allowed-IsOwned f path sess none c v e = v
  watch_allowed-IsOwned f path sess (some w) c v e = elim (Bool-cases (is_no_watch_path path)) [
    | inl h ↦ rw h v
    | inr h ↦ rw h (watch_once-IsOwned f path sess (some w) c v e)
  ]

  watch-Counts : (path : Text) (w : W n) → Counts path w (watcher_watch n path w)
  watch-Counts path w q = refs-watch n path q w

  pub watch_file-Counts : (path : Text) (w : W n) → Counts path w (watcher_watch_file n path w)
  unfolding watcher_watch_file
  watch_file-Counts path w q = refs-watch n path q w

  watch_dir-Counts : (path : Text) (w : W n) → Counts path w (watcher_watch_dir n path w)
  unfolding watcher_watch_dir
  watch_dir-Counts path w q = refs-watch n path q w

  watch-IsOwned : (path : Text) (sess : S n) → IsOwned sess → IsOwned (watch n path sess).1
  unfolding watch
  watch-IsOwned path sess v =
      watch_once-IsOwned (watcher_watch n) path sess sess.watcher (watch-Counts path) v refl

  watch_file-IsOwned :
      (path : Text) (sess : S n) → IsOwned sess → IsOwned (watch_file n path sess).1
  unfolding watch_file
  watch_file-IsOwned path sess v =
      watch_allowed-IsOwned (watcher_watch_file n) path sess sess.watcher (watch_file-Counts path) v
        refl

  watch_dir-IsOwned : (path : Text) (sess : S n) → IsOwned sess → IsOwned (watch_dir n path sess).1
  unfolding watch_dir
  watch_dir-IsOwned path sess v =
      watch_allowed-IsOwned (watcher_watch_dir n) path sess sess.watcher (watch_dir-Counts path) v
        refl

  pending_kept :
      (a p q : Text) (o : Option (W n))
      → refs_in q (elim o [ none ↦ none | some w ↦ some (watch_pending n a p w) ]) ≡ refs_in q o
  pending_kept a p q none = refl
  pending_kept a p q (some w) = refs-watch_pending n a p q w

  register_pending-IsOwned :
      (a p : Text) (r : Bool × S n) → IsOwned r.1 → IsOwned (register_pending n a p r).1
  unfolding register_pending
  register_pending-IsOwned a p (true, sess) v = record {
    at = λ q. rw (pending_kept a p q sess.watcher) (v.at q);
  }
  register_pending-IsOwned a p (false, sess) v = v

  watch_pending_under-IsOwned :
      (a p : Text) (sess : S n) → IsOwned sess → IsOwned (watch_pending_under n a p sess).1
  unfolding watch_pending_under
  watch_pending_under-IsOwned a p sess v =
      register_pending-IsOwned a p _
        (watch_once-IsOwned (watcher_watch_dir n) a sess sess.watcher (watch_dir-Counts a) v refl)
