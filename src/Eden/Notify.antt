-- ===== src/Eden/Notify.antt =====
-- watchRoot and hasCommitTransition: server/eden/eden.go. What `eden notify` does is an argument, run
-- for run; JSON is an interface. The callback is a function on a state of the caller's.
pub mod Callbacks
mod Tests
use flit_el.Prelude.{
  ℕ, Bool, true, false, Option, none, some, List, [], ◌∷◌, Text, codes, length, leb, if◌then◌else◌,
}
use flit_el.PtyBridge.Junk.{has_part}

-- encoding/json, as far as hasCommitTransition uses it.
pub record Json : Type 1 where
  pub Change : Type 0
  -- The changes of a line; none where it does not parse.
  pub changes_of : Text → Option (List Change)
  -- Whether a change has a CommitTransition; none where it does not parse.
  pub transition_of : Change → Option Bool

-- How a run of the command begins: without a pipe, without a process, or with the lines that it prints
-- and whether the watch has been cancelled when each has been read.
pub data Begun : Type 0 where
  no_pipe not_started : Begun
  running : List (Bool × Text) → Begun

-- A run: whether the watch has been cancelled before it and after it, and whether cmd.Wait returns.
pub record Run : Type 0 where
  pub cancelled_before : Bool
  pub begun : Begun
  pub exits : Bool
  pub cancelled_after : Bool

-- How the loop of the scanner ends.
pub data ScanEnd : Type 0 where
  killed line_too_long no_more : ScanEnd

-- How watchRoot ends, or what it waits for: another run, or the end of one.
pub data WatchEnd : Type 0 where
  stopped gave_up in_wait next_run : WatchEnd

-- The size of the scanner's buffer, which a line and its end have to fit.
abbrev pub max_line : ℕ
max_line = 1048576

module _ (j : Json) where
  open j use {Change, changes_of, transition_of}

  or_false : Option Bool → Bool
  or_false none = false
  or_false (some b) = b

  any_transition : List Change → Bool
  unfolding or_false
  any_transition [] = false
  any_transition (c ∷ cs) = if or_false (transition_of c) then true else any_transition cs

  -- hasCommitTransition
  unfoldable pub has_commit_transition : Text → Bool
  unfolding any_transition has_part
  has_commit_transition line = elim (has_part line (codes "CommitTransition")) [
    | false ↦ false
    | true ↦ elim (changes_of line) [ none ↦ false | some cs ↦ any_transition cs ]
  ]

  module _ {W : Type 0} (callback : W → W) where
    -- What the loop does with a line.
    unfoldable pub on_line : Text → W → W
    on_line line w = if has_commit_transition line then callback w else w

    -- The loop of the scanner.
    unfoldable pub scan : List (Bool × Text) → W → ScanEnd × W
    scan [] w = (no_more, w)
    scan ((is_cancelled, line) ∷ ls) w =
        let rest = scan ls (on_line line w) in
        if leb max_line (length line)
        then (line_too_long, w)
        else if is_cancelled
        then (killed, w)
        else rest

    after_scan : Run → (W → WatchEnd × W) → ScanEnd → W → WatchEnd × W
    after_scan r rest killed w = (stopped, w)
    after_scan r rest line_too_long w =
        if r.exits then if r.cancelled_after then (stopped, w) else rest w else (in_wait, w)
    after_scan r rest no_more w =
        if r.exits then if r.cancelled_after then (stopped, w) else rest w else (in_wait, w)

    after_begin : Run → (W → WatchEnd × W) → Begun → W → WatchEnd × W
    unfolding scan after_scan
    after_begin r rest no_pipe w = (gave_up, w)
    after_begin r rest not_started w = (gave_up, w)
    after_begin r rest (running ls) w = let s = scan ls w in after_scan r rest s.0 s.1

    -- watchRoot
    unfoldable pub watch_root : List Run → W → WatchEnd × W
    unfolding after_begin
    watch_root [] w = (next_run, w)
    watch_root (r ∷ rs) w =
        if r.cancelled_before then (stopped, w) else after_begin r (watch_root rs) r.begun w
