-- ===== src/FsHandler/Memory.antt =====
-- A system whose files lie in memory, without directories or links, on which the handlers of
-- server/fs/handler.go can run.
use flit_el.Prelude.{
  ℕ, ◌≡◌, refl, ◌∙◌, Option, none, some, [], ◌++◌, Text, Bytes, text_eq, length, codes, ==_self,
}
use flit_el.Prelude.GoMap.{GoMap, lookup, insert, erase, option_map, lookup-insert}
use flit_el.Prelude.Results.{Result, ok, err}
use flit_el.Prelude.Int64.{pos}
use flit_el.FsHandler.Os.{
  Os, OsError, not_exist, FileInfo, FileKind, regular_kind, OpenFlag, o_append, o_trunc, Call, Time,
}
use flit_el.FsHandler.Keeps.{ReadsKeep}
use flit_el.FsHandler.Write.RoundTrip.{Stores}

pub record Disk : Type 0 where
  pub files : GoMap Text (Bytes × Time)
  pub clock : Time

abbrev missing : OsError
missing = record { kind = not_exist; text = codes "no such file or directory" }

abbrev info_of : Bytes × Time → FileInfo
info_of (c, t) = record {
  size = pos (length c);
  mod_time = t;
  perm = 420;
  kind = regular_kind;
  sys = none;
}

-- An answer about a file that exists.
abbrev with_file : {A : Type 0} → (Bytes × Time → A) → Option (Bytes × Time) → Result OsError A
with_file f none = err missing
with_file f (some b) = ok (f b)

abbrev look : {A : Type 0} → (Bytes × Time → A) → Text → Call Disk A
look f path d = (with_file f (lookup path d.files), d)

abbrev store : Text → Bytes → Disk → Disk
store path c d = record d { files = insert path (c, d.clock) d.files }

abbrev appended : Text → Bytes → Disk → Option (Bytes × Time) → Result OsError (Unit {0}) × Disk
appended path c d none = (err missing, d)
appended path c d (some (old, t)) = (ok tt, store path (old ++ c) d)

abbrev moved : Text → Text → Disk → Option (Bytes × Time) → Result OsError (Unit {0}) × Disk
moved old new d none = (err missing, d)
moved old new d (some b) = (ok tt, record d { files = insert new b (erase old d.files) })

abbrev opened : Text → OpenFlag → Disk → Option (Bytes × Time) → Disk
opened path o_trunc d b = store path [] d
opened path o_append d none = store path [] d
opened path o_append d (some b) = d

abbrev copied : Text → Text → Disk → Option (Bytes × Time) → Result OsError ℕ × Disk
copied dest src d none = (err missing, d)
copied dest src d (some (c, t)) = (ok (length c), store dest c d)

abbrev done : Call Disk (Unit {0})
done d = (ok tt, d)

abbrev pub memory : Os
memory = record {
  State = Disk;
  File = Text;
  lstat = look info_of;
  stat = look info_of;
  readlink = λ path d. (err missing, d);
  eval_symlinks = λ path. look (λ b. path) path;
  getwd = λ d. (ok (codes "/"), d);
  read_file = look (λ b. b.0);
  read_dir = λ path d. (err missing, d);
  mkdir_all = λ path mode. done;
  remove = λ path d. (ok tt, record d { files = erase path d.files });
  remove_all = λ path d. (ok tt, record d { files = erase path d.files });
  rename = λ old new d. moved old new d (lookup old d.files);
  chmod = λ path mode. done;
  chtimes = λ path atime mtime. done;
  symlink = λ target path d. (err missing, d);
  open_read = λ path. look (λ b. path) path;
  open_file = λ path flag mode d. (ok path, opened path flag d (lookup path d.files));
  file_stat = look info_of;
  file_write = λ f c d. appended f c d (lookup f d.files);
  copy_file = λ dest src d. copied dest src d (lookup src d.files);
  close_file = λ f d. d;
  user_name = λ uid. none;
  group_name = λ gid. none;
}

abbrev pub contents : Text → Disk → Option Bytes
contents path d = option_map (λ b. b.0) (lookup path d.files)

-- Calls that read change nothing in memory.
pub memory-ReadsKeep : {V : Type 0} (view : Disk → V) → ReadsKeep memory view
memory-ReadsKeep view = record {
  lstat_keeps = λ path. record { kept = λ s. refl };
  stat_keeps = λ path. record { kept = λ s. refl };
  readlink_keeps = λ path. record { kept = λ s. refl };
  eval_symlinks_keeps = λ path. record { kept = λ s. refl };
  getwd_keeps = record { kept = λ s. refl };
  read_file_keeps = λ path. record { kept = λ s. refl };
  read_dir_keeps = λ path. record { kept = λ s. refl };
}

found :
    (path : Text) (b : Bytes × Time) (m : GoMap Text (Bytes × Time))
    → lookup path (insert path b m) ≡ some b
found path b m = lookup-insert path path b m ∙ rw (==_self path) refl

memory_stored :
    (path : Text) (mode : FileKind × ℕ) (f : Text) (c : Bytes) (d : Disk)
    → (memory.open_file path o_trunc mode d).0 ≡ ok f
    → contents path (memory.file_write f c (memory.open_file path o_trunc mode d).1).1 ≡ some c
memory_stored path mode f c d o =
    let e : f ≡ path = cc o in
    rw (e, found path ([], d.clock) d.files)
      (rw (found path (c, d.clock) (insert path ([], d.clock) d.files)) refl)

memory_read_back :
    (f : Bytes × Time → FileInfo) (c : Bytes) (o : Option (Bytes × Time))
    → option_map (λ b. b.0) o ≡ some c
    → (with_file (λ b. b.0) o ≡ ok c) × ((i : FileInfo) × (with_file f o ≡ ok i))
memory_read_back f c none h = absurd (cc h)
memory_read_back f c (some b) h = (cc h, (f b, refl))

-- A file in memory keeps what is written to it.
pub memory-Stores : (path : Text) (mode : FileKind × ℕ) → Stores memory path mode (contents path)
memory-Stores path mode = record {
  stored = λ f c d o w. memory_stored path mode f c d o;
  closed = λ f d. refl;
  read_back = λ c d h. (memory_read_back info_of c (lookup path d.files) h).0;
  present = λ c d h. (memory_read_back info_of c (lookup path d.files) h).1;
}
