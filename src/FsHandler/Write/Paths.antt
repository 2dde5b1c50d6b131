-- ===== src/FsHandler/Write/Paths.antt =====
-- Which path the answer of fs/write is about: server/fs/handler.go.
use flit_el.Prelude.{◌≡◌, ◌∙◌, ap, sym, Option, none, some, Text}
use flit_el.FsHandler.Os.{Os, FileInfo, regular_kind}
use flit_el.FsHandler.Io.{Failure, checked, attempt}
use flit_el.FsHandler.Types.{InfoResult, InfoResponse, WriteParams, WriteResult, written, mismatch}
use flit_el.FsHandler.Info.{get_info}
use flit_el.FsHandler.Info.Paths.{IsOf, get_info-IsOf}
use flit_el.FsHandler.Write.{
  is_guarded, is_mismatch, write, write_file, write_if_expected, refuse, mode_or, flag_of,
}
use flit_el.FsHandler.Yields.{
  Yields, pure-Yields, >>=-Yields, >>=-Yields_by, choice-Yields, deferred-Yields,
}

abbrev pub IsAbout : Text → WriteResult → Type 0
IsAbout path x = (r : InfoResponse) → x ≡ written r → r.info.path ≡ path

module _ (os : Os) (p : WriteParams) where
  mismatch-IsAbout : (c : Option InfoResult) → IsAbout p.path (mismatch c)
  mismatch-IsAbout c r h = absurd (cc h)

  written-IsAbout : (q : InfoResponse) → q.info.path ≡ p.path → IsAbout p.path (written q)
  written-IsAbout q e r h =
      let same : q ≡ r = cc h in ap (λ (x : InfoResponse). x.info.path) (sym same) ∙ e

  file-Yields : Yields (IsAbout p.path) (write_file os p)
  unfolding write_file
  file-Yields =
      >>=-Yields
        (checked (os.open_file p.path (flag_of p.append) (regular_kind, mode_or 420 p.mode)))
        (λ f. deferred-Yields (os.close_file f) (
          >>=-Yields (checked (os.file_write f p.content)) (λ _.
            >>=-Yields_by (IsOf p.path) (get_info-IsOf os p.path)
              (λ i e. pure-Yields (written-IsAbout _ e)))))

  refuse-Yields : (stat : Option FileInfo) → Yields (IsAbout p.path) (refuse os p stat)
  unfolding refuse
  refuse-Yields none = pure-Yields (mismatch-IsAbout none)
  refuse-Yields (some i) =
      >>=-Yields (attempt {F = Failure} (get_info os p.path))
        (λ c. pure-Yields (mismatch-IsAbout c))

  expected-Yields : (stat : Option FileInfo) → Yields (IsAbout p.path) (write_if_expected os p stat)
  unfolding write_if_expected
  expected-Yields stat = choice-Yields (is_mismatch p stat) (refuse-Yields stat) file-Yields

  -- What Write has written is about the path of its params.
  pub write-Yields_path : Yields (IsAbout p.path) (write os p)
  unfolding write
  write-Yields_path =
      choice-Yields (is_guarded p) (>>=-Yields (attempt (os.stat p.path)) expected-Yields)
        file-Yields
