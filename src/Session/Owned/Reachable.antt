-- ===== src/Session/Owned/Reachable.antt =====
-- The states that a session's methods lead to: server/server/jsonrpc.go.
use flit_el.Prelude.{ℕ, some, arith, Text, text_eq}
use flit_el.Prelude.GoMap.{lookup-empty}
use flit_el.Prelude.Int64.{ℤ}
use flit_el.Watcher.Interface.{Fsnotify}
use flit_el.Watcher.{WatchInfo, new_watcher}
use flit_el.Session.{
  S, new_session, watch, watch_file, watch_dir, watch_pending_under, unwatch, update_file_state,
  open_file, close_file, mark_dir_listed, should_rich_fetch, clear_cache_state,
}
use flit_el.Session.Owned.{
  IsOwned, watch-IsOwned, watch_dir-IsOwned, watch_file-IsOwned, watch_pending_under-IsOwned,
}
use flit_el.Session.Owned.Drops.{
  clear_cache_state_unwatches, close_file-IsOwned, mark_dir_listed-IsOwned, open_file-IsOwned,
  should_rich_fetch-IsOwned, unwatch-IsOwned, update_file_state-IsOwned,
}

-- The calls of a session's methods that change it.
pub data Step (n : Fsnotify) : S n → S n → Type 0 where
  watches : (s : S n) (p : Text) → Step n s (watch n p s).1
  watches_file : (s : S n) (p : Text) → Step n s (watch_file n p s).1
  watches_dir : (s : S n) (p : Text) → Step n s (watch_dir n p s).1
  waits : (s : S n) (ancestor p : Text) → Step n s (watch_pending_under n ancestor p s).1
  unwatches : (s : S n) (p : Text) → Step n s (unwatch n p s).1
  opens : (s : S n) (p : Text) (mtime size : ℤ) → Step n s (open_file n p mtime size s).1
  closes : (s : S n) (p : Text) → Step n s (close_file n p s).1
  updates : (s : S n) (p : Text) (mtime size : ℤ) → Step n s (update_file_state n p mtime size s)
  lists : (s : S n) (p : Text) → Step n s (mark_dir_listed n p s)
  fetches : (s : S n) (p : Text) (k limit : ℕ) → Step n s (should_rich_fetch n p k limit s).1
  clears : (s : S n) → Step n s (clear_cache_state n s)

pub data Reach (n : Fsnotify) (s : S n) : S n → Type 0 where
  here : Reach n s s
  next : {t u : S n} → Reach n s t → Step n t u → Reach n s u

module _ (n : Fsnotify) where
  clear_cache_state-IsOwned : (s : S n) → IsOwned n s → IsOwned n (clear_cache_state n s)
  clear_cache_state-IsOwned s v = record {
    at = λ q. omega (arith, (clear_cache_state_unwatches n s q v).0);
  }

  Step-IsOwned : {s t : S n} → Step n s t → IsOwned n s → IsOwned n t
  Step-IsOwned (watches s p) v = watch-IsOwned n p s v
  Step-IsOwned (watches_file s p) v = watch_file-IsOwned n p s v
  Step-IsOwned (watches_dir s p) v = watch_dir-IsOwned n p s v
  Step-IsOwned (waits s a p) v = watch_pending_under-IsOwned n a p s v
  Step-IsOwned (unwatches s p) v = unwatch-IsOwned n p s v
  Step-IsOwned (opens s p mtime size) v = open_file-IsOwned n p mtime size s v
  Step-IsOwned (closes s p) v = close_file-IsOwned n p s v
  Step-IsOwned (updates s p mtime size) v = update_file_state-IsOwned n p mtime size s v
  Step-IsOwned (lists s p) v = mark_dir_listed-IsOwned n p s v
  Step-IsOwned (fetches s p k limit) v = should_rich_fetch-IsOwned n p k limit s v
  Step-IsOwned (clears s) v = clear_cache_state-IsOwned s v

  new_session-IsOwned : (fs : n.State) → IsOwned n (new_session n (some (new_watcher n fs)))
  unfolding new_session new_watcher
  new_session-IsOwned fs = record { at = λ q. rw (lookup-empty {V = WatchInfo} q) (omega arith) }

  -- Whatever methods of a new session are called, errors of fsnotify included, its watcher counts a
  -- path once at most, and only a path that the session records as watched.
  pub Reach-IsOwned :
      (fs : n.State) (s : S n) → Reach n (new_session n (some (new_watcher n fs))) s → IsOwned n s
  Reach-IsOwned fs s r = along r
    where
      along : {t : S n} → Reach n (new_session n (some (new_watcher n fs))) t → IsOwned n t
      along here = new_session-IsOwned fs
      along (next r s) = Step-IsOwned s (along r)
