-- ===== src/FsHandler/Write/Refused.antt =====
-- When fs/write refuses to write, and what it then leaves alone: server/fs/handler.go.
use flit_el.Prelude.{
  ◌<◌, ◌≡◌, ◌≢◌, ◌↔◌, inl, inr, refl, ◌∙◌, Bool, true, false, Option, none, some, arith, Bool-cases,
}
use flit_el.Prelude.Results.{Result, ok, err}
use flit_el.Prelude.Int64.{ℤ}
use flit_el.FsHandler.Os.{Os, OsError, FileInfo, regular_kind}
use flit_el.FsHandler.Io.{Io, Failure, pure, go_on, checked, succeeded}
use flit_el.FsHandler.Types.{InfoResult, InfoResponse, WriteParams, WriteResult, mismatch, written}
use flit_el.FsHandler.Info.{get_info}
use flit_el.FsHandler.Info.Quiet.{get_info-Keeps}
use flit_el.FsHandler.Write.{
  mode_or, flag_of, distance, thousandths, is_mismatch, is_guarded, write_file, refuse,
  write_if_expected, write,
}
use flit_el.FsHandler.Yields.{Yields, pure-Yields, >>=-Yields, deferred-Yields}
use flit_el.FsHandler.Keeps.{Keeps, ReadsKeep, pure-Keeps, >>=-Keeps, attempt-Keeps}

-- The file is not what the client expects: it exists and should not, it is missing, or its time is
-- more than two seconds off.
pub data Stale (p : WriteParams) : Result OsError FileInfo → Type 0 where
  already_there : (i : FileInfo) → p.expect_not_exist ≡ true → Stale p (ok i)
  gone :
      (e : OsError) (t : ℤ)
      → p.expect_not_exist ≡ false
      → p.expected_mtime ≡ some t
      → Stale p (err e)
  changed :
      (i : FileInfo) (t : ℤ)
      → p.expect_not_exist ≡ false
      → p.expected_mtime ≡ some t
      → 2000 < distance (thousandths i.mod_time.sec) t
      → Stale p (ok i)

abbrev pub to_option : {E A : Type 0} → Result E A → Option A
to_option (ok a) = some a
to_option (err e) = none

Stale→mismatch :
    (p : WriteParams) (r : Result OsError FileInfo)
    → p.force ≡ false
    → Stale p r
    → (is_guarded p ≡ true) × (is_mismatch p (to_option r) ≡ true)
unfolding is_guarded is_mismatch
Stale→mismatch p r f (already_there i e) = ground arith
Stale→mismatch p r f (gone e t h k) = ground arith
Stale→mismatch p r f (changed i t h k d) = ground arith

is_guarded→not_forced : (p : WriteParams) → is_guarded p ≡ true → p.force ≡ false
unfolding is_guarded
is_guarded→not_forced p h = ground arith

mismatch→Stale :
    (p : WriteParams) (r : Result OsError FileInfo) (b : Bool) (m : Option ℤ)
    → p.expect_not_exist ≡ b
    → p.expected_mtime ≡ m
    → is_guarded p ≡ true
    → is_mismatch p (to_option r) ≡ true
    → Stale p r
unfolding is_guarded is_mismatch
mismatch→Stale p (ok i) true m h k g d = already_there i h
mismatch→Stale p (err e) true m h k g d = absurd (ground arith)
mismatch→Stale p r false none h k g d = absurd (ground arith)
mismatch→Stale p (ok i) false (some t) h k g d = changed i t h k (ground arith)
mismatch→Stale p (err e) false (some t) h k g d = gone e t h k

-- WriteMismatchResult
abbrev pub IsRefused : Result Failure WriteResult → Type 0
IsRefused r = (c : Option InfoResult) × (r ≡ ok (mismatch c))

written_differs : (r : InfoResponse) (c : Option InfoResult) → written r ≢ mismatch c
written_differs r c h = cc h

module _ (os : Os) where
  open os use {State}

  -- The part from OpenFile on reports no mismatch.
  writes :
      (p : WriteParams) → Yields (λ r. (c : Option InfoResult) → r ≢ mismatch c) (write_file os p)
  unfolding write_file
  writes p =
      >>=-Yields
        (checked (os.open_file p.path (flag_of p.append) (regular_kind, mode_or 420 p.mode)))
        (λ f. deferred-Yields (os.close_file f) (
          >>=-Yields (checked (os.file_write f p.content))
            (λ _. >>=-Yields (get_info os p.path) (λ i. pure-Yields (written_differs _)))))

  pub refuse-IsRefused :
      (p : WriteParams) (stat : Option FileInfo) (s : State) → IsRefused (refuse os p stat s).0
  unfolding refuse
  refuse-IsRefused p none s = (none, refl)
  refuse-IsRefused p (some i) s = tried (get_info os p.path s)
    where
      tried :
          (r : Result Failure InfoResult × State)
          → IsRefused (go_on (succeeded {F = Failure} r) (λ c. pure (mismatch c))).0
      tried (ok a, s) = (some a, refl)
      tried (err e, s) = (none, refl)

  -- What follows the Stat.
  after_stat :
      {A : Type 0} (r : Result OsError FileInfo × State) (f : Option FileInfo → Io State Failure A)
      → go_on (succeeded r) f ≡ f (to_option r.0) r.1
  after_stat (ok i, s) f = refl
  after_stat (err e, s) f = refl

  pub write-guarded :
      (p : WriteParams) (s : State)
      → is_guarded p ≡ true
      → write os p s ≡ write_if_expected os p (to_option (os.stat p.path s).0) (os.stat p.path s).1
  unfolding write
  write-guarded p s h = rw (h, write) (after_stat (os.stat p.path s) (write_if_expected os p))

  refuses_when :
      (p : WriteParams) (s : State)
      → (p.force ≡ false) × Stale p (os.stat p.path s).0
      → IsRefused (write os p s).0
  unfolding write_if_expected
  refuses_when p s (f, stale) =
      let (g, m) = Stale→mismatch p (os.stat p.path s).0 f stale in
      rw (write-guarded p s g) (rw (m, write_if_expected) (refuse-IsRefused p _ _))

  mismatch_only_when :
      (p : WriteParams) (s : State) (g : is_guarded p ≡ true)
      → IsRefused (write_if_expected os p (to_option (os.stat p.path s).0) (os.stat p.path s).1).0
      → Stale p (os.stat p.path s).0
  unfolding write_if_expected
  mismatch_only_when p s g (c, h) =
      elim (Bool-cases (is_mismatch p (to_option (os.stat p.path s).0))) [
        | inl m ↦ mismatch→Stale p (os.stat p.path s).0 _ _ refl refl g m
        | inr m ↦ absurd ((writes p).yielded _ _ (rw (m, write_if_expected) at h) c refl)
      ]

  refuses_only_when :
      (p : WriteParams) (s : State)
      → IsRefused (write os p s).0
      → (p.force ≡ false) × Stale p (os.stat p.path s).0
  unfolding write
  refuses_only_when p s r = elim (Bool-cases (is_guarded p)) [
    | inl g ↦ (is_guarded→not_forced p g, mismatch_only_when p s g (rw (write-guarded p s g) at r))
    | inr g ↦ absurd ((writes p).yielded s _ (rw (g, write) at r.1) r.0 refl)
  ]

  -- Write reports a mismatch exactly when it is not forced and the file, as os.Stat shows it, is not
  -- what the client expects: it exists and should not, it is missing, or its time is more than two
  -- seconds off.
  pub write_refuses_exactly :
      (p : WriteParams) (s : State)
      → IsRefused (write os p s).0 ↔ ((p.force ≡ false) × Stale p (os.stat p.path s).0)
  write_refuses_exactly p s = (refuses_only_when p s, refuses_when p s)

module _ (os : Os) {V : Type 0} (view : os.State → V) (quiet : ReadsKeep os view) where
  refuse-Keeps : (p : WriteParams) (stat : Option FileInfo) → Keeps view (refuse os p stat)
  unfolding refuse
  refuse-Keeps p none = pure-Keeps view _
  refuse-Keeps p (some i) =
      >>=-Keeps view (attempt-Keeps view (get_info-Keeps os view quiet p.path))
        (λ c. pure-Keeps view _)

  -- Where Write reports a mismatch, what reads leave alone is as it was before the request.
  pub refused_write_keeps :
      (p : WriteParams) (s : os.State) → IsRefused (write os p s).0 → view (write os p s).1 ≡ view s
  unfolding write_if_expected
  refused_write_keeps p s r =
      let (f, stale) = refuses_only_when os p s r in
      let (g, m) = Stale→mismatch p (os.stat p.path s).0 f stale in
      rw (write-guarded os p s g)
        (rw (m, write_if_expected) ((refuse-Keeps p _).kept _ ∙ (quiet.stat_keeps p.path).kept s))
