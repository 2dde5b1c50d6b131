-- ===== src/FsHandler/Tests.antt =====
-- Runs of the handlers of server/fs/handler.go on files in memory, and the theorems there.
use flit_el.Prelude.{
  ◌≡◌, refl, true, false, some, List, [], ◌∷◌, Text, has_prefix, text_eq, text_beq, codes, ◌↔◌,
  Option,
}
use flit_el.Prelude.GoMap.{lookup, insert, erase}
use flit_el.Prelude.Results.{ok}
use flit_el.Prelude.Int64.{pos}
use flit_el.Filepath.{clean, dir, base, join, is_rooted, rel}
use flit_el.FsHandler.Types.{WriteParams, InfoResponse, InfoResult, ReadResult, written, mismatch}
use flit_el.FsHandler.Stat.{read, decimal}
use flit_el.FsHandler.Write.{write}
use flit_el.FsHandler.Write.Refused.{IsRefused, Stale, write_refuses_exactly}
use flit_el.FsHandler.Write.RoundTrip.{write-read}
use flit_el.FsHandler.Types.{BatchResult}
use flit_el.FsHandler.Batch.{batch, keys}
use flit_el.FsHandler.Batch.Covers.{is_answered, is_wanted, batch_answers_all, keys-contains}
use flit_el.FsHandler.Types.{CopyDirParams, CopyDirResult}
use flit_el.FsHandler.CopyDir.{Visit, copy_dir}
use flit_el.FsHandler.Memory.{Disk, memory, memory-ReadsKeep, memory-Stores, contents}

abbrev note : Text
note = codes "/n"

abbrev disk : Disk
disk = record {
  files = (note, (codes "old", record { sec = pos 100; nsec = 0 })) ∷ [];
  clock = record { sec = pos 200; nsec = 0 };
}

-- A write of "new" for a client that last saw the file at 90 seconds.
abbrev stale_write : WriteParams
stale_write = record {
  path = note;
  content = codes "new";
  mode = 0;
  append = false;
  expected_mtime = some (pos 90000);
  expect_not_exist = false;
  force = false;
}

abbrev forced_write : WriteParams
forced_write = record stale_write { force = true }

decimal_example : decimal 1000 ≡ codes "1000"
unfolding decimal
decimal_example = refl

stale_refused : (c : Option InfoResult) × ((write memory stale_write disk).0 ≡ ok (mismatch c))
unfolding write lookup text_eq text_beq clean dir base join is_rooted
stale_refused = (_, refl)

forced_written : (r : InfoResponse) × ((write memory forced_write disk).0 ≡ ok (written r))
unfolding write lookup insert erase text_eq text_beq clean dir base join is_rooted
forced_written = (_, refl)

write_refuses_exactly_example :
    IsRefused (write memory stale_write disk).0
    ↔ ((stale_write.force ≡ false) × Stale stale_write (memory.stat note disk).0)
write_refuses_exactly_example = write_refuses_exactly memory stale_write disk

write-read_example :
    (q : ReadResult) × ((read memory (ok note) (write memory forced_write disk).1).0 ≡ ok q)
    × (q.payload ≡ codes "new")
write-read_example =
    write-read memory forced_write (contents note) (memory-Stores note _)
      (memory-ReadsKeep (contents note)) disk forced_written.0 refl forced_written.1

batch_answers_all_example :
    (out : BatchResult) × ((batch memory keys (ok (note ∷ [])) disk).0 ≡ ok out)
    × ((q : Text) → is_wanted q (note ∷ []) ≡ true → is_answered q out ≡ true)
batch_answers_all_example = batch_answers_all memory keys (note ∷ []) disk keys-contains

abbrev copy_note : CopyDirParams
copy_note = record { src = note; dest = codes "/m"; keep_time = true; preserve_links = false }

abbrev note_visit : Text → List Visit
note_visit src = (src, (memory.lstat src disk).0) ∷ []

note_copied : (out : CopyDirResult) × ((copy_dir memory note_visit (ok copy_note) disk).0 ≡ ok out)
unfolding copy_dir lookup insert erase text_eq text_beq clean join is_rooted rel has_prefix
note_copied = (_, refl)
