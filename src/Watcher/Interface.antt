-- ===== src/Watcher/Interface.antt =====
-- github.com/fsnotify/fsnotify, as far as server/fs/watcher.go relies on it: the calls that it gets.
use flit_el.Prelude.{◌≡◌, Bool, true, false, Text, text_eq, ◌==◌, if◌then◌else◌}

-- Add and Remove return true where they return no error. `watching` is the record of those calls: the
-- paths that fsnotify has been told to watch, by an Add without an error, and not told to drop since.
-- What the kernel drops by itself, where a watched file is deleted or renamed, stays in this record.
pub record Fsnotify : Type 1 where
  pub State : Type 0
  pub add : Text → State → Bool × State
  pub remove : Text → State → Bool × State
  pub watching : Text → State → Bool
  pub watching-add :
      (p q : Text) (s : State)
      → (add p s).0 ≡ true
      → watching q (add p s).1 ≡ (if p == q then true else watching q s)
  pub watching-add_failed :
      (p q : Text) (s : State) → (add p s).0 ≡ false → watching q (add p s).1 ≡ watching q s
  pub watching-remove :
      (p q : Text) (s : State)
      → watching q (remove p s).1 ≡ (if p == q then false else watching q s)
