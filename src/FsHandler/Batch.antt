-- ===== src/FsHandler/Batch.antt =====
-- fs/batch by Batch: server/fs/handler.go. The goroutines run here one after another, in an order
-- of the paths that is an argument, since Go ranges over a map in any order.
pub mod Covers
use flit_el.Prelude.{
  Bool, true, false, Option, none, some, List, [], ◌∷◌, ◌++◌, map, Text, text_eq, is_empty,
  if◌then◌else◌,
}
use flit_el.Prelude.GoMap.{GoMap, insert}
use flit_el.Prelude.Results.{Result, ok, err}
use flit_el.Filepath.{dir}
use flit_el.FsHandler.Os.{Os}
use flit_el.FsHandler.Io.{Io, Failure, go_on, ◌>>=◌, ◌>>◌, pure, outcome, decoded, error_text}
use flit_el.FsHandler.Types.{InfoResult, BatchResult, build_cache_entries}
use flit_el.FsHandler.Info.{get_info}

-- allPaths: a map[string]bool whose values are true
unfoldable pub all_paths : List Text → GoMap Text Bool
all_paths [] = []
all_paths (path ∷ paths) = insert (dir path) true (insert path true (all_paths paths))

abbrev pub keys : GoMap Text Bool → List Text
keys m = map (λ (e : Text × Bool). e.0) m

-- What one goroutine adds, with its lock held.
unfoldable pub collect : Text → Result Failure InfoResult → BatchResult → BatchResult
unfolding build_cache_entries error_text
collect path (ok info) r = record r { cache = r.cache ++ build_cache_entries info }
collect path (err e) r = record r { errors = insert path (error_text e) r.errors }

module _ (os : Os) where
  open os use {State}

  unfoldable pub fetch_all : List Text → BatchResult → Io State Failure BatchResult
  unfolding get_info collect
  fetch_all [] r = pure r
  fetch_all (path ∷ paths) r = do
    info ← outcome (get_info os path)
    fetch_all paths (collect path info r)

  -- Batch, where `order` lists the paths of allPaths as the map is ranged over
  unfoldable pub batch :
      (GoMap Text Bool → List Text) → Result Text (List Text) → Io State Failure BatchResult
  unfolding fetch_all all_paths
  batch order params = do
    paths ← decoded params
    if is_empty paths
        then pure (record { cache = []; errors = [] })
        else fetch_all (order (all_paths paths)) (record { cache = []; errors = [] })
