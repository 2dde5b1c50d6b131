-- ===== src/FsHandler/Batch/Covers.antt =====
-- What Batch answers about each path that it is asked for: server/fs/handler.go.
use flit_el.Prelude.{
  ◌≡◌, refl, arith, Bool, true, false, List, [], ◌∷◌, ◌++◌, Text, text_eq, ◌==◌, ==_iff, ==_self,
  ◌||◌,
}
use mathlib.Core.Path.{subst}
use flit_el.Prelude.GoMap.{GoMap, lookup, insert, lookup-insert}
use flit_el.Prelude.Results.{Result, ok, err}
use flit_el.Filepath.{dir}
use flit_el.FsHandler.Os.{Os}
use flit_el.FsHandler.Io.{Failure, error_text}
use flit_el.FsHandler.Types.{InfoResult, CacheEntry, BatchResult, build_cache_entries}
use flit_el.FsHandler.Info.{get_info}
use flit_el.FsHandler.Info.Paths.{get_info-IsOf}
use flit_el.FsHandler.Write.{is_present}
use flit_el.FsHandler.Batch.{all_paths, keys, collect, fetch_all, batch}

-- A list has the text.
abbrev pub contains : Text → List Text → Bool
contains q [] = false
contains q (p ∷ ps) = (p == q) || contains q ps

abbrev pub has_entry : Text → List CacheEntry → Bool
has_entry q [] = false
has_entry q (e ∷ es) = (e.path == q) || has_entry q es

-- There is a cache entry for the path, or an error.
abbrev pub is_answered : Text → BatchResult → Bool
is_answered q r = has_entry q r.cache || is_present (lookup q r.errors)

-- The path is one of those asked for, or the directory of one.
abbrev pub is_wanted : Text → List Text → Bool
is_wanted q [] = false
is_wanted q (p ∷ ps) = ((p == q) || (dir p == q)) || is_wanted q ps

is_wanted→is_present :
    (q : Text) (ps : List Text)
    → is_wanted q ps ≡ true
    → is_present (lookup q (all_paths ps)) ≡ true
unfolding all_paths
is_wanted→is_present q [] h = cc h
is_wanted→is_present q (p ∷ ps) h =
    rw (lookup-insert (dir p) q true (insert p true (all_paths ps)))
      (rw (lookup-insert p q true (all_paths ps)) (ground (arith, is_wanted→is_present q ps)))

has_entry-append :
    (q : Text) (xs ys : List CacheEntry)
    → has_entry q (xs ++ ys) ≡ (has_entry q xs || has_entry q ys)
has_entry-append q [] ys = refl
has_entry-append q (x ∷ xs) ys = ground (arith, has_entry-append q xs ys)

-- One more answer keeps those that there are.
collect-is_answered :
    (q p : Text) (i : Result Failure InfoResult) (r : BatchResult)
    → is_answered q r ≡ true
    → is_answered q (collect p i r) ≡ true
unfolding collect
collect-is_answered q p (ok i) r h =
    ground (arith, has_entry-append q r.cache (build_cache_entries i))
collect-is_answered q p (err e) r h = rw (lookup-insert p q (error_text e) r.errors) (ground arith)

-- The answer for a path answers it.
collect_answers :
    (p : Text) (i : Result Failure InfoResult) (r : BatchResult)
    → ((a : InfoResult) → i ≡ ok a → a.path ≡ p)
    → is_answered p (collect p i r) ≡ true
unfolding collect build_cache_entries
collect_answers p (ok i) r h =
    ground (arith, has_entry-append p r.cache (build_cache_entries i), h i refl, ==_self p)
collect_answers p (err e) r h =
    rw (lookup-insert p p (error_text e) r.errors) (ground (arith, ==_self p))

step :
    (q p : Text) (b c d : Bool)
    → ((p ≡ q) → d ≡ true)
    → (b ≡ true → d ≡ true)
    → (((p == q) || c) || b) ≡ true
    → (c || d) ≡ true
step q p b c d here before h = ground (arith, ==_iff p q, here, before)

module _ (os : Os) where
  open os use {State}

  fetch_all_answers :
      (ps : List Text) (r : BatchResult) (s : State)
      → (out : BatchResult) × ((fetch_all os ps r s).0 ≡ ok out)
        × ((q : Text) → (contains q ps || is_answered q r) ≡ true → is_answered q out ≡ true)
  unfolding fetch_all
  fetch_all_answers [] r s = (r, refl, λ q h. h)
  fetch_all_answers (p ∷ ps) r s =
      let got = get_info os p s in
      let (out, e, all) = fetch_all_answers ps (collect p got.0 r) got.1 in
      (
        out,
        e,
        λ q h. all q (
            step q p (is_answered q r) (contains q ps) (is_answered q (collect p got.0 r))
              (λ same.
                subst (λ t. is_answered t (collect p got.0 r) ≡ true) same
                  (collect_answers p got.0 r ((get_info-IsOf os p).yielded s)))
              (collect-is_answered q p got.0 r) h),
      )

  -- Batch returns a result, whatever order the paths are fetched in, and for each path asked for and
  -- for its directory the result has a cache entry or an error.
  pub batch_answers_all :
      (order : GoMap Text Bool → List Text) (ps : List Text) (s : State)
      → ((m : GoMap Text Bool) (q : Text)
          → is_present (lookup q m) ≡ true
          → contains q (order m) ≡ true)
      → (out : BatchResult) × ((batch os order (ok ps) s).0 ≡ ok out)
        × ((q : Text) → is_wanted q ps ≡ true → is_answered q out ≡ true)
  unfolding batch
  batch_answers_all order [] s h = (_, refl, λ q w. absurd (cc w))
  batch_answers_all order (p ∷ ps) s h =
      let m = all_paths (p ∷ ps) in
      let (out, e, all) = fetch_all_answers (order m) (record { cache = []; errors = [] }) s in
      (out, e, λ q w. all q (rw (h m q (is_wanted→is_present q (p ∷ ps) w)) refl))

-- The keys of a map have each path that the map has.
pub keys-contains :
    (m : GoMap Text Bool) (q : Text) → is_present (lookup q m) ≡ true → contains q (keys m) ≡ true
unfolding lookup
keys-contains [] q h = cc h
keys-contains ((p, b) ∷ m) q h = ground (arith, keys-contains m q)
