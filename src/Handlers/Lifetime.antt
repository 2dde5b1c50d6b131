-- ===== src/Handlers/Lifetime.antt =====
-- Server: its connections, its idle timeout and its shutdown, and the end of a session:
-- server/server/jsonrpc.go. A connection is named by a number; times are in nanoseconds.
use flit_el.Prelude.{
  ℕ, ◌-◌, Bool, true, false, Option, none, some, List, [], ◌∷◌, ltb, is_empty, nat_eq, ◌&&◌,
  if◌then◌else◌,
}
use flit_el.Prelude.GoMap.{GoMap, insert, erase}
use flit_el.Watcher.Interface.{Fsnotify}
use flit_el.Watcher.Close.{close}
use flit_el.Session.{S, unwatch_all}

-- Server; `closed` lists the connections that Shutdown has closed, and `done` says whether the
-- channel of that name is closed.
pub record Server : Type 0 where
  pub idle_timeout : ℕ
  pub last_activity : ℕ
  pub done : Bool
  pub connections : GoMap {0} ℕ Unit
  pub closed : List ℕ

-- New, at the time `now`
unfoldable pub new : ℕ → ℕ → Server
new idle_timeout now = record {
  idle_timeout = idle_timeout;
  last_activity = now;
  done = false;
  connections = [];
  closed = [];
}

unfoldable pub connection_ids : GoMap {0} ℕ Unit → List ℕ
connection_ids [] = []
connection_ids ((c, u) ∷ cs) = c ∷ connection_ids cs

-- Shutdown; none is the panic of closing a closed channel.
unfoldable pub shutdown : Server → Option Server
unfolding connection_ids
shutdown s =
    if s.done then none else some (record s { done = true; closed = connection_ids s.connections })

-- touch, at the time `now`
unfoldable pub touch : ℕ → Server → Server
touch now s = record s { last_activity = now }

-- One round of idleChecker at the time `now`: whether it goes on, and the server; none is a panic. New
-- starts idleChecker only where idleTimeout is over 0: without it a round does nothing.
unfoldable pub idle_tick : ℕ → Server → Option (Bool × Server)
unfolding shutdown
idle_tick now s =
    if s.done
    then some (false, s)
    else if ltb 0 s.idle_timeout
        && (is_empty s.connections && ltb s.idle_timeout (now - s.last_activity))
    then elim (shutdown s) [ none ↦ none | some s' ↦ some (false, s') ]
    else some (true, s)

-- The start of HandleConnection, and what it defers.
unfoldable pub connection_opened : ℕ → Server → Server
connection_opened c s = record s { connections = insert c tt s.connections }

unfoldable pub connection_closed : ℕ → Server → Server
connection_closed c s = record s { connections = erase c s.connections }

module _ (n : Fsnotify) where
  -- The part of Close that concerns the watcher; Go's nil map is the empty one.
  unfoldable pub close_watches : S n → S n
  unfolding unwatch_all close
  close_watches sess = elim sess.watcher [
    | none ↦ sess
    | some w ↦ record sess {
      watcher = some (close n (unwatch_all n sess.watched_paths w));
      watched_paths = [];
    }
  ]
