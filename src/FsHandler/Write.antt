-- ===== src/FsHandler/Write.antt =====
-- fs/write: server/fs/handler.go.
pub mod Refused
pub mod RoundTrip
pub mod Paths
use flit_el.Prelude.{
  ℕ, ◌+◌, ◌-◌, ◌*◌, Bool, true, false, Option, none, some, List, Text, Bytes, ltb, nat_beq, not,
  ◌&&◌, ◌||◌, if◌then◌else◌,
}
use flit_el.Prelude.Int64.{ℤ, pos, negsuc}
use flit_el.FsHandler.Os.{Os, FileInfo, FileKind, regular_kind, OpenFlag, o_append, o_trunc}
use flit_el.FsHandler.Io.{Io, Failure, go_on, ◌>>=◌, ◌>>◌, pure, checked, attempt, deferred}
use flit_el.FsHandler.Types.{
  InfoResult, InfoResponse, WriteParams, WriteResult, mismatch, written, build_cache_entries,
}
use flit_el.FsHandler.Info.{get_info}

-- The distance of two integers.
abbrev pub distance : ℤ → ℤ → ℕ
distance (pos a) (pos b) = (a - b) + (b - a)
distance (pos a) (negsuc b) = a + b + 1
distance (negsuc a) (pos b) = a + b + 1
distance (negsuc a) (negsuc b) = (a - b) + (b - a)

-- Thousandths of as many seconds.
abbrev pub thousandths : ℤ → ℤ
thousandths (pos n) = pos (1000 * n)
thousandths (negsuc n) = negsuc (1000 * n + 999)

abbrev pub is_present {ℓ} : {A : Type ℓ} → Option A → Bool
is_present none = false
is_present (some a) = true

-- Two seconds of tolerance.
abbrev mtime_differs : Option ℤ → Option FileInfo → Bool
mtime_differs none stat = false
mtime_differs (some expected) none = true
mtime_differs (some expected) (some stat) =
    ltb 2000 (distance (thousandths stat.mod_time.sec) expected)

-- Whether the file is not what the client expects, given what os.Stat says of it.
unfoldable pub is_mismatch : WriteParams → Option FileInfo → Bool
is_mismatch p stat =
    if p.expect_not_exist then is_present stat else mtime_differs p.expected_mtime stat

-- Whether the client expects anything.
unfoldable pub is_guarded : WriteParams → Bool
is_guarded p = not p.force && (is_present p.expected_mtime || p.expect_not_exist)

-- The mode of a new file.
abbrev pub mode_or : ℕ → ℕ → ℕ
mode_or default mode = if nat_beq mode 0 then default else mode

abbrev pub flag_of : Bool → OpenFlag
flag_of true = o_append
flag_of false = o_trunc

module _ (os : Os) where
  open os use {State}

  -- From OpenFile on.
  unfoldable pub write_file : WriteParams → Io State Failure WriteResult
  unfolding get_info build_cache_entries
  write_file p = do
    f ← checked (os.open_file p.path (flag_of p.append) (regular_kind, mode_or 420 p.mode))
    deferred (os.close_file f) (do
      checked (os.file_write f p.content)
      info ← get_info os p.path
      let info' = record info { content = none }
      pure (written (record { info = info'; cache = build_cache_entries info' })))

  unfoldable pub refuse : WriteParams → Option FileInfo → Io State Failure WriteResult
  unfolding get_info
  refuse p none = pure (mismatch none)
  refuse p (some stat) = do
    current ← attempt {F = Failure} (get_info os p.path)
    pure (mismatch current)

  unfoldable pub write_if_expected : WriteParams → Option FileInfo → Io State Failure WriteResult
  unfolding is_mismatch refuse write_file
  write_if_expected p stat = elim (is_mismatch p stat) [
    | true ↦ refuse p stat
    | false ↦ write_file p
  ]

  -- Write
  unfoldable pub write : WriteParams → Io State Failure WriteResult
  unfolding is_guarded write_if_expected write_file
  write p = elim (is_guarded p) [
    | true ↦ attempt (os.stat p.path) >>= write_if_expected p
    | false ↦ write_file p
  ]
