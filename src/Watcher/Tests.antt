-- ===== src/Watcher/Tests.antt =====
-- Runs of server/fs/watcher.go over a set of paths, and the theorems at these inputs.
use flit_el.Prelude.{
  ◌≡◌, refl, true, false, none, some, List, [], ◌∷◌, ◌++◌, arith, take, map, Text, text_eq,
  text_beq,
}
use flit_el.Prelude.GoMap.{lookup}
use flit_el.Filepath.{rel, dir, base, clean}
use flit_el.Watcher.{modified, created, W, watch, unwatch, watch_pending, clear_pending}
use flit_el.Watcher.PathSet.{path_set}
use flit_el.Watcher.Debounce.Burst.{burst_exact, trigger_all, events_of}
use flit_el.Watcher.Counts.{Holds, clear_pending_leaks}
use flit_el.Watcher.Events.{Op, found, handle_event}
use flit_el.Watcher.Events.Preserve.{watches}
use flit_el.Watcher.Events.Recreation.{SendsFirst, now_modified, pending_of, recreation_notified}

abbrev start : W path_set
start = record { fs = []; watches = []; debounce_states = []; timers = []; next_key = 0; sent = [] }

abbrev a_b : Text
a_b = 47 ∷ 97 ∷ 47 ∷ 98 ∷ []

abbrev a : Text
a = 47 ∷ 97 ∷ []

abbrev b : Text
b = 98 ∷ []

nothing_watched : lookup a start.watches ≡ none
unfolding lookup
nothing_watched = refl

below : rel a a_b ≡ some b
unfolding rel clean text_eq text_beq
below = refl

clear_pending_leaks_example :
    (let w1 =
        clear_pending path_set
          (unwatch path_set a (watch_pending path_set a a_b (watch path_set a start).1)).1 in
      Holds path_set a 0 w1 × (unwatch path_set a w1 ≡ (true, w1)))
clear_pending_leaks_example = clear_pending_leaks path_set a a_b b start nothing_watched refl below

-- Two paths wait for "/a/b".
abbrev below_b : List Text
below_b = (a_b ++ 47 ∷ 99 ∷ []) ∷ (a_b ++ 47 ∷ 100 ∷ []) ∷ []

abbrev waiting_watcher : W path_set
waiting_watcher = record start {
  fs = (a, tt) ∷ [];
  watches = (a, record { ref_count = 0; pending = (b, below_b) ∷ [] }) ∷ [];
}

abbrev create_op : Op
create_op = record { write = false; create = true; remove = false; rename = false; chmod = false }

recreation_notified_example :
    (let w' = handle_event path_set 5 a_b create_op found found waiting_watcher in
      SendsFirst path_set
        (map now_modified (pending_of path_set (dir a_b) (base a_b) waiting_watcher))
        waiting_watcher
        w'
      × (pending_of path_set (dir a_b) (base a_b) w' ≡ []))
recreation_notified_example =
    recreation_notified path_set 5 a_b create_op found found waiting_watcher refl refl

-- The paths that wait there are the two.
two_wait : pending_of path_set (dir a_b) (base a_b) waiting_watcher ≡ below_b
unfolding dir base clean lookup text_eq text_beq
two_wait = refl

no_state : lookup a start.debounce_states ≡ none
unfolding lookup
no_state = refl

burst_exact_example :
    (trigger_all path_set a
      ((9, modified) ∷ (10, modified) ∷ (11, created) ∷ (12, modified) ∷ [])
      start).sent
    ≡ []
      ++ take 3 (events_of a ((9, modified) ∷ (10, modified) ∷ (11, created) ∷ (12, modified) ∷ []))
burst_exact_example =
    burst_exact path_set a 9 modified ((10, modified) ∷ (11, created) ∷ (12, modified) ∷ []) start
      no_state (omega arith, (omega arith, (omega arith, tt)))
