-- ===== src/FsHandler/CopyDir/Counts.antt =====
-- What fs/copy-dir counts: server/fs/handler.go.
use flit_el.Prelude.{ℕ, ◌+◌, ◌≡◌, arith, false, List, [], ◌∷◌, Text, length, has_prefix}
use flit_el.Prelude.Results.{ok}
use flit_el.Filepath.{join}
use flit_el.FsHandler.Os.{Os, FileInfo, o_trunc}
use flit_el.FsHandler.Io.{checked, decoded, abs}
use flit_el.FsHandler.Types.{CopyDirParams, CopyDirResult}
use flit_el.FsHandler.Stat.{is_dir_kind}
use flit_el.FsHandler.Info.{is_symlink_kind}
use flit_el.FsHandler.CopyDir.{
  Visit, no_copies, lifted, relative, keep_time, copy_file, copy_target, copy_symlink, copy_entry,
  walk, recursive_copy, copy_dir,
}
use flit_el.FsHandler.Yields.{
  Yields, pure-Yields, fail-Yields, if-Yields, >>=-Yields, >>=-Yields_by, deferred-Yields,
  choice-Yields, checked-Yields, weaken,
}

-- Files and directories copied so far.
abbrev pub copied : CopyDirResult → ℕ
copied r = r.files_copied + r.dirs_copied

-- The count is `r`'s and k more.
abbrev Adds : CopyDirResult → ℕ → CopyDirResult → Type 0
Adds r k out = copied out ≡ copied r + k

module _ (os : Os) (p : CopyDirParams) where
  file-Adds :
      (path dest_path : Text) (info : FileInfo) (r : CopyDirResult)
      → Yields (Adds r 1) (copy_file os p path dest_path info r)
  unfolding copy_file
  file-Adds path dest_path info r = >>=-Yields (os.open_read path) (λ src.
      deferred-Yields (os.close_file src) (
        >>=-Yields (os.open_file dest_path o_trunc (info.kind, info.perm)) (λ dest.
          deferred-Yields (os.close_file dest) (
            >>=-Yields (os.copy_file dest src)
              (λ n. >>=-Yields (keep_time os p dest_path info) (λ _. pure-Yields (omega arith)))))))

  target-Adds :
      (path dest_path : Text) (info : FileInfo) (r : CopyDirResult)
      → Yields (Adds r 1) (copy_target os p path dest_path info r)
  unfolding copy_target
  target-Adds path dest_path info r =
      choice-Yields (is_dir_kind info.kind)
        (>>=-Yields (os.mkdir_all dest_path (info.kind, info.perm))
          (λ _. pure-Yields (omega arith)))
        (file-Adds path dest_path info r)

  symlink-Adds :
      (path dest_path : Text) (r : CopyDirResult)
      → p.preserve_links ≡ false
      → Yields (Adds r 1) (copy_symlink os p path dest_path r)
  unfolding copy_symlink
  symlink-Adds path dest_path r h =
      rw (h, copy_symlink) (>>=-Yields (os.stat path) (λ info. target-Adds path dest_path info r))

  entry-Adds :
      (v : Visit) (r : CopyDirResult)
      → p.preserve_links ≡ false
      → Yields (Adds r 1) (copy_entry os p v r)
  unfolding copy_entry
  entry-Adds (path, visited) r h = >>=-Yields (lifted os visited) (λ info.
      >>=-Yields (relative os p.src path) (λ rel_path.
        choice-Yields (is_symlink_kind info.kind) (symlink-Adds path (join p.dest rel_path) r h)
          (target-Adds path (join p.dest rel_path) info r)))

  walk-Adds :
      (vs : List Visit) (r : CopyDirResult)
      → p.preserve_links ≡ false
      → Yields (Adds r (length vs)) (walk os p vs r)
  unfolding walk
  walk-Adds [] r h = pure-Yields (omega arith)
  walk-Adds (v ∷ vs) r h =
      >>=-Yields_by (Adds r 1) (entry-Adds v r h)
        (λ r' a. weaken (λ out b. omega arith) (walk-Adds vs r' h))

  dir-Adds :
      (visits : Text → List Visit)
      → p.preserve_links ≡ false
      → Yields (Adds no_copies (length (visits p.src))) (copy_dir os visits (ok p))
  unfolding copy_dir
  dir-Adds visits h = >>=-Yields (decoded (ok p)) (λ p'. >>=-Yields (checked (abs os p.src)) (λ src.
      >>=-Yields (checked (abs os p.dest)) (λ dest.
        if-Yields (has_prefix dest src) (fail-Yields (recursive_copy os))
          (checked-Yields (walk-Adds (visits p.src) no_copies h)))))

-- A copy that does not keep symlinks and succeeds has copied one file or directory for each path that
-- Walk visits.
pub copy_dir_counts :
    (os : Os) (visits : Text → List Visit) (p : CopyDirParams) (s : os.State) (out : CopyDirResult)
    → p.preserve_links ≡ false
    → (copy_dir os visits (ok p) s).0 ≡ ok out
    → out.files_copied + out.dirs_copied ≡ length (visits p.src)
copy_dir_counts os visits p s out k h = omega (arith, (dir-Adds os p visits k).yielded s out h)
