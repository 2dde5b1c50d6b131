-- ===== src/FsHandler/Total.antt =====
-- Computations of server/fs/handler.go that return a value in every state, and what a computation
-- that returned one went through.
use flit_el.Prelude.{◌≡◌, refl, Option, none, some, Text}
use flit_el.Prelude.Results.{Result, ok, err}
use flit_el.FsHandler.Os.{
  Os, FileInfo, FileKind, dir_kind, regular_kind, symlink_kind, special_kind,
}
use flit_el.FsHandler.Io.{
  Io, pure, go_on, ◌>>=◌, attempt, succeeded, map_error, outcome, abs, abs_of, resolve,
}
use flit_el.FsHandler.Stat.{type_of_kind, determine_type_and_is_dir, populate_stat_from_file_info}

pub record Total {S E A : Type 0} (m : Io S E A) : Type 0 where
  pub value : (s : S) → (a : A) × ((m s).0 ≡ ok a)

pub go_on-eq_ok :
    {S E A B : Type 0} (r : Result E A × S) (f : A → Io S E B) (b : B)
    → (go_on r f).0 ≡ ok b
    → (a : A) × (r.0 ≡ ok a) × (go_on r f ≡ f a r.1)
go_on-eq_ok (ok a, s) f b h = (a, refl, refl)
go_on-eq_ok (err e, s) f b h = absurd (cc h)

pub go_on_ok :
    {S E A B : Type 0} (r : Result E A × S) (f : A → Io S E B) (a : A)
    → r.0 ≡ ok a
    → go_on r f ≡ f a r.1
go_on_ok (ok b, s) f a h = let e : b ≡ a = cc h in rw e refl
go_on_ok (err e, s) f a h = absurd (cc h)

pub map_error-eq_ok :
    {S E F A : Type 0} (f : E → F) (r : Result E A × S) (a : A)
    → (map_error f r).0 ≡ ok a
    → r.0 ≡ ok a
map_error-eq_ok f (ok b, s) a h = cc h
map_error-eq_ok f (err e, s) a h = absurd (cc h)

pub map_error_ok :
    {S E F A : Type 0} (f : E → F) (r : Result E A × S) (a : A)
    → r.0 ≡ ok a
    → (map_error f r).0 ≡ ok a
map_error_ok f (ok b, s) a h = cc h
map_error_ok f (err e, s) a h = absurd (cc h)

pub map_error-state : {S E F A : Type 0} (f : E → F) (r : Result E A × S) → (map_error f r).1 ≡ r.1
map_error-state f (ok a, s) = refl
map_error-state f (err e, s) = refl

pub pure-Total : {S E A : Type 0} (a : A) → Total {S = S} {E = E} (pure a)
pure-Total a = record { value = λ s. (a, refl) }

pub >>=-Total :
    {S E A B : Type 0} {m : Io S E A} {f : A → Io S E B}
    → Total m
    → ((a : A) → Total (f a))
    → Total (m >>= f)
>>=-Total {m = m} {f} tm tf = record {
  value = λ s. let (a, h) = tm.value s in rw (go_on_ok (m s) f a h) ((tf a).value (m s).1);
}

tried :
    {S E A : Type 0} (F : Type 0) (r : Result E A × S)
    → (o : Option A) × ((succeeded {F = F} r).0 ≡ ok o)
tried F (ok a, s) = (some a, refl)
tried F (err e, s) = (none, refl)

pub attempt-Total : {S E F A : Type 0} (m : Io S E A) → Total (attempt {F = F} m)
attempt-Total {F = F} m = record { value = λ s. tried F (m s) }

pub outcome-Total : {S E F A : Type 0} (m : Io S E A) → Total (outcome {F = F} m)
outcome-Total m = record { value = λ s. ((m s).0, refl) }

module _ (os : Os) where
  abs_of-Total : (o : Option Text) → Total (abs_of os o)
  abs_of-Total none = pure-Total none
  abs_of-Total (some p) = attempt-Total (abs os p)

  pub resolve-Total : (path : Text) → Total (resolve os path)
  unfolding resolve
  resolve-Total path = >>=-Total (attempt-Total (os.eval_symlinks path)) abs_of-Total

  type-Total : (kind : FileKind) (path : Text) → Total (type_of_kind os kind path)
  unfolding type_of_kind
  type-Total dir_kind path = pure-Total _
  type-Total regular_kind path = pure-Total _
  type-Total symlink_kind path =
      >>=-Total (attempt-Total (os.readlink path))
        (λ t. >>=-Total (attempt-Total (os.stat path)) (λ i. pure-Total _))
  type-Total special_kind path = pure-Total _

  pub populate-Total :
      (path : Text) (info : FileInfo) → Total (populate_stat_from_file_info os path info)
  unfolding populate_stat_from_file_info determine_type_and_is_dir
  populate-Total path info = >>=-Total (type-Total info.kind path) (λ t. pure-Total _)
