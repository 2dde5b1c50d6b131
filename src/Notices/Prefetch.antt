-- ===== src/Notices/Prefetch.antt =====
-- AsyncFetchChildEntries and PrefetchAncestors: server/server/jsonrpc.go.
use flit_el.Prelude.{
  ℕ, zero, suc, Bool, true, false, Option, none, some, List, [], ◌∷◌, ◌++◌, Text, text_eq, length,
  is_empty, ◌==◌, ◌&&◌, ◌||◌, not, if◌then◌else◌,
}
use flit_el.Prelude.GoMap.{GoMap, lookup, option_map}
use flit_el.Prelude.Results.{Result, ok, err}
use flit_el.Filepath.{dir, dot_text, root_text}
use flit_el.Watcher.Interface.{Fsnotify}
use flit_el.Session.{WatchMeta, is_some, is_no_watch_path, should_rich_fetch, watch_dir}
use flit_el.FsHandler.Os.{Os}
use flit_el.FsHandler.Io.{Failure}
use flit_el.FsHandler.Types.{InfoResult, DirChild, CacheEntry}
use flit_el.FsHandler.Info.{get_child_entries, get_info_with_entries, max_entries_default}
use flit_el.Notices.World.{entry_info, ancestor_info, send, ask, in_sess}
use flit_el.Notices.Changes.{Here}

-- The loops over a path's ancestors end at "/" and at ".".
abbrev pub is_top : Text → Bool
is_top p = (p == root_text) || (p == dot_text)

-- The ancestors from `current` up to the top, with one round of fuel for each; none where the fuel
-- runs out.
unfoldable pub climb : ℕ → Text → Option (List Text)
climb zero current = none
climb (suc fuel) current =
    let rest = option_map (λ ps. current ∷ ps) (climb fuel (dir current)) in
    if is_top current then some [] else rest

-- As many rounds as the path has bytes, and one.
unfoldable pub ancestors : Text → Option (List Text)
unfolding climb
ancestors path = option_map (λ ps. ps ++ (root_text ∷ [])) (climb (suc (length path)) (dir path))

module _ (n : Fsnotify) (os : Os) where
  abbrev send_entries : Text → Result Failure (List CacheEntry) × Here n os → Here n os
  send_entries path (err e, w) = w
  send_entries path (ok cache, w) =
      if is_empty cache then w else send (entry_info path cache none) w

  fetch_if : Text → List DirChild → ℕ → Bool × Here n os → Here n os
  unfolding get_child_entries
  fetch_if path children limit (false, w) = w
  fetch_if path children limit (true, w) =
      send_entries path (ask (get_child_entries os path children limit) w)

  -- AsyncFetchChildEntries
  unfoldable pub async_fetch_child_entries : Text → List DirChild → ℕ → Here n os → Here n os
  unfolding fetch_if should_rich_fetch
  async_fetch_child_entries path children limit w =
      if is_empty children
      then w
      else fetch_if path children limit
          (in_sess (should_rich_fetch n path (length children) limit) w)

  -- The ancestors that are not watched yet and may be.
  unfoldable pub to_fetch : List Text → GoMap Text WatchMeta → List Text
  to_fetch [] watched = []
  to_fetch (p ∷ ps) watched =
      let rest = to_fetch ps watched in
      if not (is_some (lookup p watched)) && not (is_no_watch_path p) then p ∷ rest else rest

  -- What the goroutine of one ancestor returns: WatchDir, whose error is ignored, then the info.
  fetch_ancestor : Text → Here n os → Result Failure InfoResult × Here n os
  unfolding watch_dir get_info_with_entries
  fetch_ancestor path w = ask (get_info_with_entries os path) (in_sess (watch_dir n path) w).1

  with_result :
      Text → Result Failure InfoResult → List (Text × InfoResult) → List (Text × InfoResult)
  with_result path (err e) rs = rs
  with_result path (ok info) rs = (path, info) ∷ rs

  fetch_ancestors : List Text → Here n os → List (Text × InfoResult) × Here n os
  unfolding fetch_ancestor with_result
  fetch_ancestors [] w = ([], w)
  fetch_ancestors (p ∷ ps) w =
      let (info, w1) = fetch_ancestor p w in
      let (rest, w2) = fetch_ancestors ps w1 in (with_result p info rest, w2)

  abbrev entries_of : List (Text × InfoResult) → List CacheEntry
  entries_of [] = []
  entries_of ((path, info) ∷ rs) = record { path = path; info = info } ∷ entries_of rs

  abbrev children_of : Option (List DirChild) → List DirChild
  children_of none = []
  children_of (some cs) = cs

  fetch_children : List (Text × InfoResult) → Here n os → Here n os
  unfolding async_fetch_child_entries
  fetch_children [] w = w
  fetch_children ((path, info) ∷ rs) w =
      fetch_children rs
        (async_fetch_child_entries path (children_of info.children) max_entries_default w)

  announce : List (Text × InfoResult) × Here n os → Here n os
  unfolding send fetch_children
  announce (rs, w) =
      if is_empty rs then w else fetch_children rs (send (ancestor_info (entries_of rs)) w)

  -- PrefetchAncestors
  unfoldable pub prefetch_ancestors : Text → Here n os → Here n os
  unfolding ancestors to_fetch fetch_ancestors announce
  prefetch_ancestors path w = elim (ancestors path) [
    | none ↦ w
    | some ps ↦ announce (fetch_ancestors (to_fetch ps w.sess.watched_paths) w)
  ]
