-- ===== src/Session/Tests.antt =====
-- A session over a set of paths: server/server/jsonrpc.go.
use flit_el.Prelude.{
  ◌≡◌, refl, true, false, some, [], ◌∷◌, Text, codes, text_eq, text_beq, has_prefix,
}
use flit_el.Prelude.GoMap.{lookup}
use flit_el.Prelude.Int64.{pos}
use flit_el.Watcher.{W, new_watcher}
use flit_el.Watcher.PathSet.{path_set, failing_set}
use flit_el.Watcher.Counts.{Holds}
use flit_el.Session.{
  S, no_meta, is_no_watch_path, is_under_any, new_session, watch_dir, open_file, close_file,
  should_rich_fetch,
}
use flit_el.Session.Owned.{IsOwned, refs_in}
use flit_el.Session.Owned.Reachable.{Reach, here, next, opens, watches_dir, Reach-IsOwned}
use flit_el.Session.Files.{reopened_unwatched}

abbrev a : Text
a = 47 ∷ 97 ∷ []

volatile :
    (is_no_watch_path (codes "/tmp") ≡ true)
    × (is_no_watch_path (codes "/tmp/x") ≡ true)
    × (is_no_watch_path (codes "/tmpx") ≡ false)
unfolding is_no_watch_path is_under_any has_prefix text_eq text_beq
volatile = (refl, refl, refl)

abbrev fresh : S path_set
fresh = new_session path_set (some (new_watcher path_set []))

abbrev opened : S path_set
opened = (open_file path_set a (pos 3) (pos 4) (watch_dir path_set a fresh).1).1

opened-Reach : Reach path_set fresh opened
opened-Reach =
    next (next here (watches_dir fresh a)) (opens (watch_dir path_set a fresh).1 a (pos 3) (pos 4))

Reach-IsOwned_example : IsOwned path_set opened
Reach-IsOwned_example = Reach-IsOwned path_set [] opened opened-Reach

-- A session that watches "/a", over a watcher whose removals fail.
abbrev stuck_watcher : W failing_set
stuck_watcher = record {
  fs = (a, tt) ∷ [];
  watches = (a, record { ref_count = 1; pending = [] }) ∷ [];
  debounce_states = [];
  timers = [];
  next_key = 0;
  sent = [];
}

abbrev stuck : S failing_set
stuck = record {
  watcher = some stuck_watcher;
  watched_paths = (a, no_meta) ∷ [];
  open_files = (a, true) ∷ [];
  rich_fetched = [];
}

a_watched : lookup a stuck.watched_paths ≡ some no_meta
unfolding lookup text_eq text_beq
a_watched = refl

two_fit : (should_rich_fetch failing_set a 2 10 stuck).0 ≡ true
unfolding should_rich_fetch lookup
two_fit = refl

a_held : Holds failing_set a 1 stuck_watcher
unfolding lookup text_eq text_beq
a_held = (refl, refl)

reopened_unwatched_example :
    (let closed = close_file failing_set a stuck in
      let again = open_file failing_set a (pos 5) (pos 6) closed.1 in
      (closed.0 ≡ false) × (again.0 ≡ true) × (refs_in failing_set a again.1.watcher ≡ 0))
reopened_unwatched_example =
    reopened_unwatched failing_set a (pos 5) (pos 6) stuck stuck_watcher no_meta refl a_watched
      a_held refl
