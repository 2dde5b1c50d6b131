-- ===== src/FsHandler/Yields.antt =====
-- What every value that a computation of server/fs/handler.go returns satisfies: rules for each step
-- of control flow.
use flit_el.Prelude.{◌≡◌, refl, Bool, true, false, if◌then◌else◌}
use mathlib.Core.Path.{subst}
use flit_el.Prelude.Results.{Result, ok, err}
use flit_el.FsHandler.Os.{OsError}
use flit_el.FsHandler.Io.{
  Io, rpc, file_error, map_error, checked, pure, fail, go_on, ◌>>=◌, deferred,
}

pub record Yields {S E A : Type 0} (P : A → Type 0) (m : Io S E A) : Type 0 where
  pub yielded : (s : S) (a : A) → (m s).0 ≡ ok a → P a

ok_injective :
    {E A : Type 0} (P : A → Type 0) {a b : A} → ◌≡◌ {A = Result E A} (ok a) (ok b) → P a → P b
ok_injective P h p = subst P (cc h) p

module _ {S E A : Type 0} {P : A → Type 0} where
  pub pure-Yields : {a : A} → P a → Yields {S = S} {E = E} P (pure a)
  pure-Yields p = record { yielded = λ s b h. ok_injective P h p }

  pub fail-Yields : (e : E) → Yields {S = S} P (fail e)
  fail-Yields e = record { yielded = λ s b h. absurd (cc h) }

  pub deferred-Yields : (c : S → S) {m : Io S E A} → Yields P m → Yields P (deferred c m)
  deferred-Yields c y = record { yielded = λ s b h. y.yielded s b h }

  pub choice-Yields :
      (b : Bool) {x y : Io S E A}
      → Yields P x
      → Yields P y
      → Yields P (elim b [ true ↦ x | false ↦ y ])
  choice-Yields true kx ky = kx
  choice-Yields false kx ky = ky

  pub if-Yields :
      (b : Bool) {x y : Io S E A} → Yields P x → Yields P y → Yields P (if b then x else y)
  if-Yields true kx ky = kx
  if-Yields false kx ky = ky

  after :
      {B : Type 0} (r : Result E B × S) (f : B → Io S E A)
      → ((b : B) → r.0 ≡ ok b → Yields P (f b))
      → (a : A) → (go_on r f).0 ≡ ok a
      → P a
  after (ok b, s) f y a h = (y b refl).yielded s a h
  after (err e, s) f y a h = absurd (cc h)

  pub >>=-Yields :
      {B : Type 0} (m : Io S E B) {f : B → Io S E A}
      → ((b : B) → Yields P (f b))
      → Yields P (m >>= f)
  >>=-Yields m {f} y = record { yielded = λ s. after (m s) f (λ b _. y b) }

  -- The first part's values satisfy Q, and the second part uses it.
  pub >>=-Yields_by :
      {B : Type 0} (Q : B → Type 0) {m : Io S E B} {f : B → Io S E A}
      → Yields Q m
      → ((b : B) → Q b → Yields P (f b))
      → Yields P (m >>= f)
  >>=-Yields_by Q {m = m} {f} q y = record {
    yielded = λ s. after (m s) f (λ b e. y b (q.yielded s b e));
  }

pub weaken :
    {S E A : Type 0} {P Q : A → Type 0} {m : Io S E A}
    → ((a : A) → P a → Q a)
    → Yields P m
    → Yields Q m
weaken f y = record { yielded = λ s a h. f a (y.yielded s a h) }

checked_value :
    {S A : Type 0} (r : Result OsError A × S) (a : A)
    → (map_error (λ e. rpc (file_error e)) r).0 ≡ ok a
    → r.0 ≡ ok a
checked_value (ok b, s) a h = cc h
checked_value (err e, s) a h = absurd (cc h)

pub checked-Yields :
    {S A : Type 0} {P : A → Type 0} {m : Io S OsError A} → Yields P m → Yields P (checked m)
checked-Yields {m = m} y = record { yielded = λ s a h. y.yielded s a (checked_value (m s) a h) }
