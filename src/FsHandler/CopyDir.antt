-- ===== src/FsHandler/CopyDir.antt =====
-- fs/copy-dir: server/fs/handler.go. What filepath.Walk visits is an argument: for each visit the
-- path, and the FileInfo or the error that Walk passes on.
pub mod Counts
use flit_el.Prelude.{
  ℕ, ◌+◌, Bool, true, false, Option, none, some, List, [], ◌∷◌, Text, codes, has_prefix,
  if◌then◌else◌,
}
use flit_el.Prelude.Results.{Result, ok, err}
use flit_el.Filepath.{join, rel}
use flit_el.FsHandler.Os.{
  Os, OsError, other_kind, FileInfo, FileKind, symlink_kind, dir_kind, o_trunc,
}
use flit_el.FsHandler.Io.{
  Io, Failure, rpc, go_on, ◌>>=◌, ◌>>◌, pure, fail, checked, deferred, decoded, abs, invalid_params,
}
use flit_el.FsHandler.Types.{CopyDirParams, CopyDirResult}
use flit_el.FsHandler.Stat.{is_dir_kind}
use flit_el.FsHandler.Info.{is_symlink_kind}

abbrev pub Visit : Type 0
Visit = Text × Result OsError FileInfo

abbrev pub no_copies : CopyDirResult
no_copies = record { files_copied = 0; dirs_copied = 0; bytes_copied = 0 }

-- The error of filepath.Rel
abbrev rel_error : OsError
rel_error = record { kind = other_kind; text = codes "Rel: can't make path relative" }

module _ (os : Os) where
  open os use {State}

  abbrev lifted : {A : Type 0} → Result OsError A → Io State OsError A
  lifted (ok a) s = (ok a, s)
  lifted (err e) s = (err e, s)

  abbrev relative : Text → Text → Io State OsError Text
  relative src path = elim (rel src path) [ none ↦ fail rel_error | some r ↦ pure r ]

  keep_time : CopyDirParams → Text → FileInfo → Io State OsError (Unit {0})
  keep_time p dest_path info =
      if p.keep_time then os.chtimes dest_path info.mod_time info.mod_time else pure tt

  copy_file :
      CopyDirParams → Text → Text → FileInfo → CopyDirResult → Io State OsError CopyDirResult
  unfolding keep_time
  copy_file p path dest_path info r = do
    src ← os.open_read path
    deferred (os.close_file src) (do
      dest ← os.open_file dest_path o_trunc (info.kind, info.perm)
      deferred (os.close_file dest) (do
        n ← os.copy_file dest src
        keep_time p dest_path info
        pure (record r { files_copied = r.files_copied + 1; bytes_copied = r.bytes_copied + n })))

  copy_target :
      CopyDirParams → Text → Text → FileInfo → CopyDirResult → Io State OsError CopyDirResult
  unfolding copy_file
  copy_target p path dest_path info r = elim (is_dir_kind info.kind) [
    | true ↦ do
      os.mkdir_all dest_path (info.kind, info.perm)
      pure (record r { dirs_copied = r.dirs_copied + 1 })
    | false ↦ copy_file p path dest_path info r
  ]

  -- Where the visit is of a symlink.
  copy_symlink : CopyDirParams → Text → Text → CopyDirResult → Io State OsError CopyDirResult
  unfolding copy_target
  copy_symlink p path dest_path r = elim p.preserve_links [
    | true ↦ do target ← os.readlink path; os.symlink target dest_path; pure r
    | false ↦ do info ← os.stat path; copy_target p path dest_path info r
  ]

  -- The function that CopyDir passes to filepath.Walk.
  unfoldable pub copy_entry : CopyDirParams → Visit → CopyDirResult → Io State OsError CopyDirResult
  unfolding copy_symlink copy_target
  copy_entry p (path, visited) r = do
    info ← lifted visited
    rel_path ← relative p.src path
    let dest_path = join p.dest rel_path
    elim (is_symlink_kind info.kind) [
      | true ↦ copy_symlink p path dest_path r
      | false ↦ copy_target p path dest_path info r
    ]

  -- filepath.Walk stops at the first error of its function.
  unfoldable pub walk : CopyDirParams → List Visit → CopyDirResult → Io State OsError CopyDirResult
  unfolding copy_entry
  walk p [] r = pure r
  walk p (v ∷ vs) r = do r' ← copy_entry p v r; walk p vs r'

  abbrev recursive_copy : Failure
  recursive_copy = rpc (record {
    code = invalid_params;
    message = codes "Recursive copy: destination is inside source";
    detail = none;
  })

  -- CopyDir, where `visits` is what Walk visits under p.Src
  unfoldable pub copy_dir :
      (Text → List Visit) → Result Text CopyDirParams → Io State Failure CopyDirResult
  unfolding walk abs
  copy_dir visits params = do
    p ← decoded params
    src_abs ← checked (abs os p.src)
    dest_abs ← checked (abs os p.dest)
    if has_prefix dest_abs src_abs
        then fail recursive_copy
        else checked (walk p (visits p.src) no_copies)
