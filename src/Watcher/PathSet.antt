-- ===== src/Watcher/PathSet.antt =====
-- A set of paths in place of fsnotify, on which the tests run server/fs/watcher.go.
use flit_el.Prelude.{
  ◌≡◌, refl, Bool, true, false, Option, none, some, [], ◌∷◌, arith, Text, text_eq, ◌==◌,
  if◌then◌else◌,
}
use flit_el.Prelude.GoMap.{GoMap, lookup, insert, erase, lookup-insert, lookup-erase}
use flit_el.Watcher.Interface.{Fsnotify}

abbrev pub is_there : Option {0} Unit → Bool
is_there none = false
is_there (some u) = true

-- Add of the empty path is an error.
abbrev pub add_path : Text → GoMap {0} Text Unit → Bool × GoMap {0} Text Unit
add_path [] s = (false, s)
add_path (x ∷ p) s = (true, insert (x ∷ p) tt s)

pub watching-add_path :
    (p q : Text) (s : GoMap {0} Text Unit)
    → (add_path p s).0 ≡ true
    → is_there (lookup q (add_path p s).1) ≡ (if p == q then true else is_there (lookup q s))
watching-add_path [] q s h = cc
watching-add_path (x ∷ p) q s h = ground (arith, lookup-insert (x ∷ p) q tt s)

pub watching-add_path_failed :
    (p q : Text) (s : GoMap {0} Text Unit)
    → (add_path p s).0 ≡ false
    → is_there (lookup q (add_path p s).1) ≡ is_there (lookup q s)
watching-add_path_failed [] q s h = refl
watching-add_path_failed (x ∷ p) q s h = cc

pub watching-erase :
    (p q : Text) (s : GoMap {0} Text Unit)
    → is_there (lookup q (erase p s)) ≡ (if p == q then false else is_there (lookup q s))
watching-erase p q s = ground (arith, lookup-erase p q s)

-- `removes` says whether Remove of a path returns no error.
abbrev pub path_set_of : (Text → GoMap {0} Text Unit → Bool) → Fsnotify
path_set_of removes = record {
  State = GoMap {0} Text Unit;
  add = add_path;
  remove = λ p s. (removes p s, erase p s);
  watching = λ p s. is_there (lookup p s);
  watching-add = watching-add_path;
  watching-add_failed = watching-add_path_failed;
  watching-remove = watching-erase;
}

-- Remove of a path that is not there is an error.
abbrev pub path_set : Fsnotify
path_set = path_set_of λ p s. is_there (lookup p s)

-- Remove always returns an error, as it does for a path whose watch the kernel has removed.
abbrev pub failing_set : Fsnotify
failing_set = path_set_of λ p s. false
