-- ===== src/Eden.antt =====
-- server/eden/eden.go: finding the root of an EdenFS checkout, and which roots are watched.
pub mod Ends
pub mod Notify
mod Tests
use flit_el.Prelude.{
  ℕ, zero, suc, ◌+◌, Bool, true, false, Option, none, some, List, [], ◌∷◌, Text, codes, text_eq,
  length, ◌==◌, not, if◌then◌else◌,
}
use flit_el.Prelude.GoMap.{GoMap, lookup, insert}
use flit_el.Prelude.Results.{Result, ok, err}
use flit_el.Filepath.{dir, join}
use flit_el.FsHandler.Os.{Os, OsError, FileInfo}
use flit_el.FsHandler.Stat.{is_dir_kind}
use flit_el.FsHandler.Write.{is_present}

abbrev is_file_there : Result OsError FileInfo → Bool
is_file_there (err e) = false
is_file_there (ok i) = not (is_dir_kind i.kind)

abbrev is_dir_there : Result OsError FileInfo → Bool
is_dir_there (err e) = false
is_dir_there (ok i) = is_dir_kind i.kind

abbrev link_target : Result OsError Text → Option Text
link_target (err e) = none
link_target (ok t) = some t

-- How the loop of GetEdenRoot ends: with a root, at the top, or not within its fuel.
pub data Search : Type 0 where
  root : Text → Search
  no_root : Search
  out_of_fuel : Search

module _ (os : Os) where
  open os use {State}

  -- The link `.eden/root` of a directory, where there is one.
  root_link : Text → State → Option Text × State
  root_link d s =
      let (info, s1) = os.stat (join d (codes ".eden")) s in
      elim (is_dir_there info) [
        | true ↦
            let (target, s2) = os.readlink (join (join d (codes ".eden")) (codes "root")) s1 in
            (link_target target, s2)
        | false ↦ (none, s1)
      ]

  -- The loop of GetEdenRoot, with one round of fuel for each directory.
  unfoldable pub search_root : ℕ → Text → State → Search × State
  unfolding root_link
  search_root zero d s = (out_of_fuel, s)
  search_root (suc fuel) d s =
      let (target, s') = root_link d s in
      elim target [
        | some t ↦ (root t, s')
        | none ↦ elim (dir d == d) [ true ↦ (no_root, s') | false ↦ search_root fuel (dir d) s' ]
      ]

  -- GetEdenRoot
  unfoldable pub get_eden_root : Text → State → Search × State
  unfolding search_root
  get_eden_root path s =
      let (info, s') = os.stat path s in
      let start = if is_file_there info then dir path else path in
      search_root (length start + 2) start s'

-- Watcher: the roots that it watches, and those whose watch it has cancelled.
pub record EdenWatcher : Type 0 where
  pub roots : GoMap {0} Text Unit
  pub started : List Text
  pub cancelled : List Text

-- NewWatcher
unfoldable pub new_eden_watcher : EdenWatcher
new_eden_watcher = record { roots = []; started = []; cancelled = [] }

-- EnsureWatching
unfoldable pub ensure_watching : Text → EdenWatcher → EdenWatcher
ensure_watching r w =
    if is_present (lookup r w.roots)
    then w
    else record w { roots = insert r tt w.roots; started = r ∷ w.started }

roots_of : GoMap {0} Text Unit → List Text
roots_of [] = []
roots_of ((r, u) ∷ rs) = r ∷ roots_of rs

-- Stop
unfoldable pub stop : EdenWatcher → EdenWatcher
unfolding roots_of
stop w = record w { roots = []; cancelled = roots_of w.roots }
