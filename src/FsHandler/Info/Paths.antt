-- ===== src/FsHandler/Info/Paths.antt =====
-- Which path an info is of: server/fs/handler.go.
use flit_el.Prelude.{
  ◌≡◌, refl, ◌∙◌, Bool, true, false, Option, none, some, Text, Bytes, if◌then◌else◌, ◌==◌, ◌&&◌,
  ◌||◌,
}
use flit_el.Prelude.Results.{Result, ok, err}
use flit_el.Prelude.Int64.{int_eq}
use flit_el.Filepath.{dir}
use flit_el.FsHandler.Os.{Os, OsError, FileInfo}
use flit_el.FsHandler.Io.{Failure, attempt, outcome, resolve}
use flit_el.FsHandler.Types.{InfoResult, is_file, is_directory, is_symlink}
use flit_el.FsHandler.Stat.{populate_stat_from_file_info, is_not_exist}
use flit_el.FsHandler.Info.{
  missing_info, existing_info, restat, with_content, add_content, add_children, stat_failed,
  full_info, get_info, at_most_max, read_dir_with_types,
}
use flit_el.FsHandler.Yields.{
  Yields, pure-Yields, fail-Yields, >>=-Yields, >>=-Yields_by, choice-Yields,
}

abbrev pub IsOf : Text → InfoResult → Type 0
IsOf path r = r.path ≡ path

restat-path : (r : InfoResult) (i : Option FileInfo) → (restat r i).path ≡ r.path
unfolding restat
restat-path r none = refl
restat-path r (some i) = cases (i.mod_time.sec == r.fields.mtime)
  where
    cases :
        (b : Bool)
        → (if b then r else record r {
          fields = record r.fields { mtime = i.mod_time.sec; size = i.size };
        }).path
          ≡ r.path
    cases true = refl
    cases false = refl

module _ (os : Os) (path : Text) where
  missing-IsOf : Yields (IsOf path) (missing_info os path)
  unfolding missing_info
  missing-IsOf = >>=-Yields (resolve os (dir path)) (λ p. pure-Yields refl)

  existing-IsOf : (i : FileInfo) → Yields (IsOf path) (existing_info os path i)
  unfolding existing_info
  existing-IsOf i =
      >>=-Yields (populate_stat_from_file_info os path i)
        (λ f. >>=-Yields (resolve os path) (λ p. pure-Yields refl))

  with_content-IsOf :
      (r : InfoResult) (c : Option Bytes) → IsOf path r → Yields (IsOf path) (with_content os r c)
  unfolding with_content
  with_content-IsOf r none h = pure-Yields h
  with_content-IsOf r (some c) h =
      >>=-Yields (attempt (os.lstat r.path))
        (λ i. pure-Yields (restat-path (record r { content = some c }) i ∙ h))

  add_content-IsOf : (r : InfoResult) → IsOf path r → Yields (IsOf path) (add_content os r)
  unfolding add_content
  add_content-IsOf r h =
      choice-Yields (is_file r.fields.typ && at_most_max r.fields.size)
        (>>=-Yields (attempt (os.read_file r.path)) (λ c. with_content-IsOf r c h)) (pure-Yields h)

  add_children-IsOf : (r : InfoResult) → IsOf path r → Yields (IsOf path) (add_children os r)
  unfolding add_children
  add_children-IsOf r h =
      choice-Yields (is_directory r.fields.typ || (is_symlink r.fields.typ && r.fields.is_dir))
        (>>=-Yields (attempt {F = Failure} (read_dir_with_types os r.path)) (λ c. pure-Yields h))
        (pure-Yields h)

  full_info-IsOf : (r : Result OsError FileInfo) → Yields (IsOf path) (full_info os path r)
  unfolding full_info stat_failed
  full_info-IsOf (err e) = choice-Yields (is_not_exist e.kind) missing-IsOf (fail-Yields _)
  full_info-IsOf (ok i) =
      >>=-Yields_by (IsOf path) (existing-IsOf i)
        (λ r h. >>=-Yields_by (IsOf path) (add_content-IsOf r h) add_children-IsOf)

  -- The info that getInfo returns names the path that was asked for.
  pub get_info-IsOf : Yields (IsOf path) (get_info os path)
  unfolding get_info
  get_info-IsOf = >>=-Yields (outcome (os.lstat path)) full_info-IsOf
