-- ===== src/FsHandler/Info/Quiet.antt =====
-- Getting a path's info only reads: server/fs/handler.go.
use flit_el.Prelude.{Option, none, some, List, [], ◌∷◌, Text, Bytes, ◌&&◌, ◌||◌}
use flit_el.Prelude.Results.{Result, ok, err}
use flit_el.Filepath.{is_rooted, dir}
use flit_el.FsHandler.Os.{
  Os, OsError, FileInfo, FileKind, DirEntry, dir_kind, regular_kind, symlink_kind, special_kind,
}
use flit_el.FsHandler.Io.{abs, abs_of, resolve}
use flit_el.FsHandler.Types.{InfoResult, is_file, is_directory, is_symlink}
use flit_el.FsHandler.Stat.{
  type_of_kind, determine_type_and_is_dir, populate_stat_from_file_info, is_not_exist,
}
use flit_el.FsHandler.Info.{
  dir_child, dir_children, read_dir_with_types, missing_info, existing_info, with_content,
  add_content, add_children, stat_failed, full_info, get_info, is_symlink_kind, at_most_max,
}
use flit_el.FsHandler.Keeps.{
  Keeps, ReadsKeep, pure-Keeps, fail-Keeps, >>=-Keeps, checked-Keeps, attempt-Keeps, outcome-Keeps,
  choice-Keeps,
}

module _ (os : Os) {V : Type 0} (view : os.State → V) (quiet : ReadsKeep os view) where
  open quiet use {
    lstat_keeps, stat_keeps, readlink_keeps, eval_symlinks_keeps, getwd_keeps, read_file_keeps,
    read_dir_keeps,
  }

  abs-Keeps : (path : Text) → Keeps view (abs os path)
  unfolding abs
  abs-Keeps path =
      choice-Keeps view (is_rooted path) (pure-Keeps view _)
        (>>=-Keeps view getwd_keeps (λ wd. pure-Keeps view _))

  abs_of-Keeps : (o : Option Text) → Keeps view (abs_of os o)
  abs_of-Keeps none = pure-Keeps view none
  abs_of-Keeps (some p) = attempt-Keeps view (abs-Keeps p)

  resolve-Keeps : (path : Text) → Keeps view (resolve os path)
  unfolding resolve
  resolve-Keeps path = >>=-Keeps view (attempt-Keeps view (eval_symlinks_keeps path)) abs_of-Keeps

  type-Keeps : (kind : FileKind) (path : Text) → Keeps view (type_of_kind os kind path)
  unfolding type_of_kind
  type-Keeps dir_kind path = pure-Keeps view _
  type-Keeps regular_kind path = pure-Keeps view _
  type-Keeps symlink_kind path =
      >>=-Keeps view (attempt-Keeps view (readlink_keeps path))
        (λ t. >>=-Keeps view (attempt-Keeps view (stat_keeps path)) (λ i. pure-Keeps view _))
  type-Keeps special_kind path = pure-Keeps view _

  populate-Keeps :
      (path : Text) (info : FileInfo) → Keeps view (populate_stat_from_file_info os path info)
  unfolding populate_stat_from_file_info determine_type_and_is_dir
  populate-Keeps path info = >>=-Keeps view (type-Keeps info.kind path) (λ t. pure-Keeps view _)

  dir_child-Keeps : (path : Text) (e : DirEntry) → Keeps view (dir_child os path e)
  unfolding dir_child
  dir_child-Keeps path e =
      choice-Keeps view (is_symlink_kind e.kind)
        (>>=-Keeps view (attempt-Keeps view (stat_keeps _)) (λ i. pure-Keeps view _))
        (pure-Keeps view _)

  dir_children-Keeps : (path : Text) (es : List DirEntry) → Keeps view (dir_children os path es)
  unfolding dir_children
  dir_children-Keeps path [] = pure-Keeps view _
  dir_children-Keeps path (e ∷ es) =
      >>=-Keeps view (dir_child-Keeps path e)
        (λ c. >>=-Keeps view (dir_children-Keeps path es) (λ cs. pure-Keeps view _))

  read_dir_with_types-Keeps : (path : Text) → Keeps view (read_dir_with_types os path)
  unfolding read_dir_with_types
  read_dir_with_types-Keeps path =
      >>=-Keeps view (checked-Keeps view (read_dir_keeps path)) (dir_children-Keeps path)

  missing-Keeps : (path : Text) → Keeps view (missing_info os path)
  unfolding missing_info
  missing-Keeps path = >>=-Keeps view (resolve-Keeps (dir path)) (λ p. pure-Keeps view _)

  existing-Keeps : (path : Text) (info : FileInfo) → Keeps view (existing_info os path info)
  unfolding existing_info
  existing-Keeps path info =
      >>=-Keeps view (populate-Keeps path info)
        (λ f. >>=-Keeps view (resolve-Keeps path) (λ p. pure-Keeps view _))

  with_content-Keeps : (r : InfoResult) (c : Option Bytes) → Keeps view (with_content os r c)
  unfolding with_content
  with_content-Keeps r none = pure-Keeps view _
  with_content-Keeps r (some c) =
      >>=-Keeps view (attempt-Keeps view (lstat_keeps r.path)) (λ i. pure-Keeps view _)

  add_content-Keeps : (r : InfoResult) → Keeps view (add_content os r)
  unfolding add_content
  add_content-Keeps r =
      choice-Keeps view (is_file r.fields.typ && at_most_max r.fields.size)
        (>>=-Keeps view (attempt-Keeps view (read_file_keeps r.path)) (with_content-Keeps r))
        (pure-Keeps view _)

  add_children-Keeps : (r : InfoResult) → Keeps view (add_children os r)
  unfolding add_children
  add_children-Keeps r =
      choice-Keeps view (is_directory r.fields.typ || (is_symlink r.fields.typ && r.fields.is_dir))
        (>>=-Keeps view (attempt-Keeps view (read_dir_with_types-Keeps r.path))
          (λ c. pure-Keeps view _))
        (pure-Keeps view _)

  full_info-Keeps : (path : Text) (r : Result OsError FileInfo) → Keeps view (full_info os path r)
  unfolding full_info stat_failed
  full_info-Keeps path (err e) =
      choice-Keeps view (is_not_exist e.kind) (missing-Keeps path) (fail-Keeps view _)
  full_info-Keeps path (ok info) =
      >>=-Keeps view (existing-Keeps path info)
        (λ r. >>=-Keeps view (add_content-Keeps r) add_children-Keeps)

  -- Getting a path's info leaves what reads leave.
  pub get_info-Keeps : (path : Text) → Keeps view (get_info os path)
  unfolding get_info
  get_info-Keeps path =
      >>=-Keeps view (outcome-Keeps view (lstat_keeps path)) (full_info-Keeps path)
