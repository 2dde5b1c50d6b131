-- ===== src/Notices/Tests.antt =====
-- Events on a file in memory, and the theorems there: server/server/jsonrpc.go.
use flit_el.Prelude.{
  ◌≡◌, refl, true, none, some, List, [], ◌∷◌, ◌++◌, suc, Text, codes, text_eq, text_beq, length,
}
use flit_el.Prelude.GoMap.{lookup, insert, erase}
use flit_el.Prelude.Results.{ok}
use flit_el.Prelude.Int64.{pos}
use flit_el.Filepath.{clean, dir, base, join, is_rooted, root_text, split_slash, through_last_slash}
use flit_el.Watcher.PathSet.{path_set}
use flit_el.Session.{no_meta, get_file_state, is_dir_listed, update_file_state, S}
use flit_el.FsHandler.Os.{FileInfo, regular_kind}
use flit_el.FsHandler.Memory.{Disk, memory}
use flit_el.Notices.Changes.{Here, on_watch_event}
use flit_el.Notices.Prefetch.{ancestors}
use flit_el.Notices.Pending.{find_ancestor}
use flit_el.Notices.Ends.{ancestor_loops_end}
use flit_el.Notices.Once.{modified_event, seen, modified_notified_once}

abbrev note : Text
note = codes "/n"

abbrev disk : Disk
disk = record {
  files = (note, (codes "old", record { sec = pos 100; nsec = 0 })) ∷ [];
  clock = record { sec = pos 200; nsec = 0 };
}

abbrev note_info : FileInfo
note_info = record {
  size = pos 3;
  mod_time = record { sec = pos 100; nsec = 0 };
  perm = 420;
  kind = regular_kind;
  sys = none;
}

abbrev sess : S path_set
sess = record {
  watcher = none;
  watched_paths = (note, no_meta) ∷ [];
  open_files = [];
  rich_fetched = [];
}

abbrev start : Here path_set memory
start = record { sess = sess; sys = disk; sent = []; notifying = true }

abbrev after_one : Here path_set memory
after_one = on_watch_event path_set memory (modified_event note) start

two_ancestors : ancestors (codes "/a/b") ≡ some (codes "/a" ∷ codes "/" ∷ [])
unfolding ancestors dir clean is_rooted split_slash through_last_slash text_eq text_beq
two_ancestors = refl

ancestor_loops_end_example :
    ((ps : List Text) × (ancestors (codes "/a/b") ≡ some (ps ++ (root_text ∷ []))))
    × ((a : Text) × ((find_ancestor path_set memory
            (suc (length (codes "/a/b")))
            (dir (codes "/a/b"))
            start).0
          ≡ some a))
ancestor_loops_end_example = ancestor_loops_end path_set memory (codes "/a/b") start

one_sent : length after_one.sent ≡ 1
unfolding on_watch_event lookup insert erase text_eq text_beq get_file_state is_dir_listed
    update_file_state clean dir base join is_rooted
one_sent = refl

found : lookup note sess.watched_paths ≡ some no_meta
unfolding lookup text_eq text_beq
found = refl

seen_first : seen path_set memory note start ≡ ok note_info
unfolding lookup text_eq text_beq
seen_first = refl

seen_again : seen path_set memory note after_one ≡ ok note_info
unfolding on_watch_event lookup insert erase text_eq text_beq get_file_state is_dir_listed
    update_file_state clean dir base join is_rooted
seen_again = refl

modified_notified_once_example :
    ((on_watch_event path_set memory (modified_event note) after_one).sent ≡ after_one.sent)
    × ((on_watch_event path_set memory (modified_event note) after_one).sess ≡ after_one.sess)
modified_notified_once_example =
    modified_notified_once path_set memory note note_info note_info start no_meta refl found
      seen_first seen_again refl refl
