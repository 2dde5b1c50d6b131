-- ===== src/FsHandler/Keeps.antt =====
-- What a computation of server/fs/handler.go leaves as it is: rules for each step of control flow,
-- and what is assumed of the calls of the system that only read.
use flit_el.Prelude.{◌≡◌, refl, ◌∙◌, Bool, true, false, Text, ap}
use flit_el.Prelude.Results.{Result, ok, err}
use flit_el.FsHandler.Os.{Os, OsError}
use flit_el.FsHandler.Io.{
  Io, go_on, ◌>>=◌, pure, fail, checked, attempt, outcome, map_error, succeeded,
}

-- `view`, what one looks at in a state, is the same after the computation.
pub record Keeps {S V E A : Type 0} (view : S → V) (m : Io S E A) : Type 0 where
  pub kept : (s : S) → view (m s).1 ≡ view s

pub pure-Keeps : {S V E A : Type 0} (view : S → V) (a : A) → Keeps {E = E} view (pure a)
pure-Keeps view a = record { kept = λ s. refl }

pub fail-Keeps : {S V E A : Type 0} (view : S → V) (e : E) → Keeps {A = A} view (fail e)
fail-Keeps view e = record { kept = λ s. refl }

module _ {S V E A B : Type 0} (view : S → V) where
  after :
      (r : Result E A × S) (f : A → Io S E B)
      → ((a : A) → Keeps view (f a))
      → view (go_on r f).1 ≡ view r.1
  after (ok a, s) f k = (k a).kept s
  after (err e, s) f k = refl

  pub >>=-Keeps :
      {m : Io S E A} {f : A → Io S E B}
      → Keeps view m
      → ((a : A) → Keeps view (f a))
      → Keeps view (m >>= f)
  >>=-Keeps {m} {f} km kf = record { kept = λ s. after (m s) f kf ∙ km.kept s }

mapped : {S E F A : Type 0} (f : E → F) (r : Result E A × S) → (map_error f r).1 ≡ r.1
mapped f (ok a, s) = refl
mapped f (err e, s) = refl

tried : {S E A : Type 0} (F : Type 0) (r : Result E A × S) → (succeeded {F = F} r).1 ≡ r.1
tried F (ok a, s) = refl
tried F (err e, s) = refl

module _ {S V : Type 0} (view : S → V) where
  pub checked-Keeps : {A : Type 0} {m : Io S OsError A} → Keeps view m → Keeps view (checked m)
  checked-Keeps {m = m} k = record { kept = λ s. ap view (mapped _ (m s)) ∙ k.kept s }

  pub attempt-Keeps :
      {E F A : Type 0} {m : Io S E A} → Keeps view m → Keeps view (attempt {F = F} m)
  attempt-Keeps {F = F} {m = m} k = record { kept = λ s. ap view (tried F (m s)) ∙ k.kept s }

  pub outcome-Keeps :
      {E F A : Type 0} {m : Io S E A} → Keeps view m → Keeps view (outcome {F = F} m)
  outcome-Keeps k = record { kept = λ s. k.kept s }

-- A test chooses between two computations.
pub choice-Keeps :
    {S V E A : Type 0} (view : S → V) (b : Bool) {x y : Io S E A}
    → Keeps view x
    → Keeps view y
    → Keeps view (elim b [ true ↦ x | false ↦ y ])
choice-Keeps view true kx ky = kx
choice-Keeps view false kx ky = ky

-- What is looked at does not change by calls that read.
pub record ReadsKeep (os : Os) {V : Type 0} (view : os.State → V) : Type 0 where
  pub lstat_keeps : (path : Text) → Keeps view (os.lstat path)
  pub stat_keeps : (path : Text) → Keeps view (os.stat path)
  pub readlink_keeps : (path : Text) → Keeps view (os.readlink path)
  pub eval_symlinks_keeps : (path : Text) → Keeps view (os.eval_symlinks path)
  pub getwd_keeps : Keeps view os.getwd
  pub read_file_keeps : (path : Text) → Keeps view (os.read_file path)
  pub read_dir_keeps : (path : Text) → Keeps view (os.read_dir path)
