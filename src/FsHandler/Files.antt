-- ===== src/FsHandler/Files.antt =====
-- fs/mkdir, fs/delete, fs/rename, fs/copy, fs/chmod and fs/touch: server/fs/handler.go.
use flit_el.Prelude.{ℕ, Text, nat_beq, if◌then◌else◌, ◌==◌}
use flit_el.Prelude.Results.{Result}
use flit_el.Prelude.Int64.{ℤ, pos, int_eq}
use flit_el.FsHandler.Os.{Os, Time, o_trunc, regular_kind}
use flit_el.FsHandler.Io.{Io, Failure, ◌>>=◌, checked, deferred, decoded}
use flit_el.FsHandler.Types.{
  MkdirParams, DeleteParams, RenameParams, CopyParams, ChmodParams, TouchParams,
}
use flit_el.FsHandler.Write.{mode_or}

module _ (os : Os) where
  open os use {State}

  -- Mkdir
  unfoldable pub mkdir : Result Text MkdirParams → Io State Failure (Unit {0})
  mkdir params = do
    p ← decoded params
    checked (os.mkdir_all p.path (regular_kind, mode_or 493 p.mode))

  -- Delete
  unfoldable pub delete : Result Text DeleteParams → Io State Failure (Unit {0})
  delete params = do
    p ← decoded params
    checked (if p.recursive then os.remove_all p.path else os.remove p.path)

  -- Rename
  unfoldable pub rename : Result Text RenameParams → Io State Failure (Unit {0})
  rename params = do p ← decoded params; checked (os.rename p.old_path p.new_path)

  -- Copy, with the count of bytes
  unfoldable pub copy : Result Text CopyParams → Io State Failure ℕ
  copy params = do
    p ← decoded params
    src ← checked (os.open_read p.src)
    deferred (os.close_file src) (do
      info ← checked (os.file_stat src)
      let mode = if nat_beq p.mode 0 then (info.kind, info.perm) else (regular_kind, p.mode)
      dest ← checked (os.open_file p.dest o_trunc mode)
      deferred (os.close_file dest) (checked (os.copy_file dest src)))

  -- Chmod
  unfoldable pub chmod : Result Text ChmodParams → Io State Failure (Unit {0})
  chmod params = do p ← decoded params; checked (os.chmod p.path p.mode)

  abbrev time_or : Time → ℤ → Time
  time_or now t = if t == pos 0 then now else record { sec = t; nsec = 0 }

  -- Touch, at the time `now`
  unfoldable pub touch : Time → Result Text TouchParams → Io State Failure (Unit {0})
  touch now params = do
    p ← decoded params
    checked (os.chtimes p.path (time_or now p.atime) (time_or now p.mtime))
