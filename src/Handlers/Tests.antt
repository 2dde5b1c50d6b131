-- ===== src/Handlers/Tests.antt =====
-- fs/write on a watched file in memory, and the theorems there: server/server/jsonrpc.go.
use flit_el.Prelude.{
  ℕ, ◌≡◌, ◌≢◌, refl, true, false, none, some, [], ◌∷◌, Text, codes, text_eq, text_beq, Option,
  has_prefix,
}
use flit_el.Prelude.GoMap.{lookup, insert, erase}
use flit_el.Prelude.Results.{ok}
use flit_el.Prelude.Int64.{pos}
use flit_el.Filepath.{clean, dir, base, join, is_rooted}
use flit_el.Watcher.PathSet.{path_set}
use flit_el.Session.{no_meta, update_file_state}
use flit_el.FsHandler.Os.{FileInfo, regular_kind}
use flit_el.FsHandler.Types.{WriteParams, InfoResponse, InfoResult, written, mismatch}
use flit_el.FsHandler.Memory.{memory}
use flit_el.Notices.Changes.{Here, on_watch_event}
use flit_el.Notices.Once.{modified_event, seen}
use flit_el.Handlers.Files.{fs_write}
use flit_el.Handlers.Init.{expand_home}
use flit_el.Handlers.Lifetime.{new, shutdown}
use flit_el.Handlers.Echo.{own_write_suppressed, failed_write_hides}

abbrev note : Text
note = codes "/n"

abbrev world : Here path_set memory
world = record {
  sess = record {
    watcher = none;
    watched_paths = (note, no_meta) ∷ [];
    open_files = [];
    rich_fetched = [];
  };
  sys = record {
    files = (note, (codes "old", record { sec = pos 100; nsec = 0 })) ∷ [];
    clock = record { sec = pos 200; nsec = 0 };
  };
  sent = [];
  notifying = true;
}

abbrev forced : WriteParams
forced = record {
  path = note;
  content = [];
  mode = 0;
  append = false;
  expected_mtime = none;
  expect_not_exist = false;
  force = true;
}

abbrev exclusive : WriteParams
exclusive = record forced { expect_not_exist = true; force = false }

abbrev info_at : ℕ → ℕ → FileInfo
info_at t n = record {
  size = pos n;
  mod_time = record { sec = pos t; nsec = 0 };
  perm = 420;
  kind = regular_kind;
  sys = none;
}

home_expanded : expand_home (codes "/root") (codes "~/bin") ≡ codes "/root/bin"
unfolding expand_home has_prefix
home_expanded = refl

-- A second Shutdown panics.
shut_twice : shutdown (record (new 0 0) { done = true }) ≡ none
unfolding shutdown
shut_twice = refl

found : lookup note world.sess.watched_paths ≡ some no_meta
unfolding lookup text_eq text_beq
found = refl

forced_written :
    (r : InfoResponse) × ((fs_write path_set memory (pos 200) (ok forced) (codes "new") world).0
      ≡ ok (written r))
unfolding fs_write lookup insert erase text_eq text_beq clean dir base join is_rooted
    update_file_state
forced_written = (_, refl)

seen_written :
    seen path_set memory note (fs_write path_set memory (pos 200) (ok forced) (codes "new") world).1
    ≡ ok (info_at 200 3)
unfolding fs_write lookup insert erase text_eq text_beq clean dir base join is_rooted
    update_file_state
seen_written = refl

own_write_suppressed_example :
    (on_watch_event path_set memory
      (modified_event note)
      (fs_write path_set memory (pos 200) (ok forced) (codes "new") world).1).sent
    ≡ []
unfolding forced_written
own_write_suppressed_example =
    own_write_suppressed path_set memory (pos 200) forced (codes "new") world no_meta
      forced_written.0 (info_at 200 3) found forced_written.1 seen_written refl refl

exclusive_refused :
    (c : Option InfoResult) × ((fs_write path_set memory
        (pos 200)
        (ok exclusive)
        (codes "new")
        world).0
      ≡ ok (mismatch c))
unfolding fs_write lookup insert erase text_eq text_beq clean dir base join is_rooted
    update_file_state
exclusive_refused = (_, refl)

not_written :
    (r : InfoResponse)
    → (fs_write path_set memory (pos 200) (ok exclusive) (codes "new") world).0 ≢ ok (written r)
not_written r h = cc (exclusive_refused.1)

seen_refused :
    seen path_set memory note
      (fs_write path_set memory (pos 200) (ok exclusive) (codes "new") world).1
    ≡ ok (info_at 100 3)
unfolding fs_write lookup insert erase text_eq text_beq clean dir base join is_rooted
    update_file_state
seen_refused = refl

failed_write_hides_example :
    (on_watch_event path_set memory
      (modified_event note)
      (fs_write path_set memory (pos 200) (ok exclusive) (codes "new") world).1).sent
    ≡ []
failed_write_hides_example =
    failed_write_hides path_set memory (pos 200) exclusive (codes "new") world no_meta
      (info_at 100 3) found not_written seen_refused refl
