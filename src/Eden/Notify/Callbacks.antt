-- ===== src/Eden/Notify/Callbacks.antt =====
-- Which lines of `eden notify` call back: server/eden/eden.go.
use mathlib.Core.List.{append-nil}
use flit_el.Prelude.{
  ℕ, zero, suc, sym, inl, inr, Bool-cases, ◌≡◌, refl, ◌∙◌, ap, Bool, true, false, List, [], ◌∷◌,
  ◌++◌, Text, length, leb, if◌then◌else◌,
}
use flit_el.Eden.Notify.{
  Json, Run, running, next_run, in_wait, ScanEnd, no_more, line_too_long, max_line,
  has_commit_transition, on_line, scan, after_scan, watch_root,
}

-- A line that the scanner's buffer holds.
abbrev pub Fits : Text → Type 0
Fits line = leb max_line (length line) ≡ false

abbrev pub AllFit : List Text → Type 0
AllFit [] = Unit
AllFit (l ∷ ls) = Fits l × AllFit ls

-- The lines as they are read while nothing is cancelled.
abbrev pub uncancelled : List Text → List (Bool × Text)
uncancelled [] = []
uncancelled (l ∷ ls) = (false, l) ∷ uncancelled ls

-- A run that prints these lines and exits, while nothing is cancelled.
abbrev pub printing : List Text → Run
printing ls = record {
  cancelled_before = false;
  begun = running (uncancelled ls);
  exits = true;
  cancelled_after = false;
}

abbrev pub runs_printing : List (List Text) → List Run
runs_printing [] = []
runs_printing (ls ∷ runs) = printing ls ∷ runs_printing runs

abbrev pub AllRunsFit : List (List Text) → Type 0
AllRunsFit [] = Unit
AllRunsFit (ls ∷ runs) = AllFit ls × AllRunsFit runs

abbrev pub joined : List (List Text) → List Text
joined [] = []
joined (ls ∷ runs) = ls ++ joined runs

module _ (j : Json) where
  abbrev pub transitions : List Text → ℕ
  transitions [] = 0
  transitions (l ∷ ls) = if has_commit_transition j l then suc (transitions ls) else transitions ls

  module _ {W : Type 0} (callback : W → W) where
    abbrev pub times : ℕ → W → W
    times zero w = w
    times (suc k) w = times k (callback w)

    -- What the lines do to the state, one after another.
    abbrev over : List Text → W → W
    over [] w = w
    over (l ∷ ls) w = over ls (on_line j callback l w)

    scan_past :
        (ls : List Text) (rest : List (Bool × Text)) (w : W)
        → AllFit ls
        → scan j callback (uncancelled ls ++ rest) w ≡ scan j callback rest (over ls w)
    unfolding scan
    scan_past [] rest w h = refl
    scan_past (l ∷ ls) rest w (h, hs) = rw h (scan_past ls rest (on_line j callback l w) hs)

    scan_fits :
        (ls : List Text) (w : W)
        → AllFit ls
        → scan j callback (uncancelled ls) w ≡ (no_more, over ls w)
    unfolding scan
    scan_fits ls w h = rw⁻¹ (append-nil (uncancelled ls)) (scan_past ls [] w h)

    over-append : (ls ms : List Text) (w : W) → over (ls ++ ms) w ≡ over ms (over ls w)
    over-append [] ms w = refl
    over-append (l ∷ ls) ms w = over-append ls ms (on_line j callback l w)

    over-times : (ls : List Text) (w : W) → over ls w ≡ times (transitions ls) w
    unfolding on_line
    over-times [] w = refl
    over-times (l ∷ ls) w = elim (Bool-cases (has_commit_transition j l)) [
      | inl e ↦ rw e (over-times ls (callback w))
      | inr e ↦ rw e (over-times ls w)
    ]

    watch_over :
        (runs : List (List Text)) (w : W)
        → AllRunsFit runs
        → watch_root j callback (runs_printing runs) w ≡ (next_run, over (joined runs) w)
    unfolding watch_root
    watch_over [] w h = refl
    watch_over (ls ∷ runs) w (h, hs) =
        ap
          (λ (s : ScanEnd × W).
            after_scan j callback (printing ls) (watch_root j callback (runs_printing runs)) s.0
              s.1)
          (scan_fits ls w h)
        ∙ watch_over runs (over ls w) hs
        ∙ ap (λ w'. (next_run, w')) (sym (over-append ls (joined runs) w))

    scan_long :
        (long : Text) (later : List (Bool × Text)) (w : W)
        → leb max_line (length long) ≡ true
        → scan j callback ((false, long) ∷ later) w ≡ (line_too_long, w)
    unfolding scan
    scan_long long later w e = rw e refl

    -- While nothing is cancelled and each run ends by itself, over all reconnections, the callback is
    -- called once for each line that has a CommitTransition, if every line fits the scanner's buffer.
    pub callback_for_each_transition :
        (runs : List (List Text)) (w : W)
        → AllRunsFit runs
        → watch_root j callback (runs_printing runs) w
          ≡ (next_run, times (transitions (joined runs)) w)
    callback_for_each_transition runs w h =
        watch_over runs w h ∙ ap (λ w'. (next_run, w')) (over-times (joined runs) w)

    -- A line that does not fit the buffer ends the scanner's loop: while the command does not exit, the
    -- watch waits for it, and whatever it prints later calls back no more.
    pub long_line_stops_callbacks :
        (before : List Text) (long : Text) (later : List (Bool × Text)) (runs : List Run) (w : W)
        → AllFit before
        → leb max_line (length long) ≡ true
        → watch_root j callback
            (record {
              cancelled_before = false;
              begun = running (uncancelled before ++ ((false, long) ∷ later));
              exits = false;
              cancelled_after = false;
            }
              ∷ runs)
            w
          ≡ (in_wait, times (transitions before) w)
    unfolding watch_root
    long_line_stops_callbacks before long later runs w h long_one =
        let r : Run = record {
          cancelled_before = false;
          begun = running (uncancelled before ++ ((false, long) ∷ later));
          exits = false;
          cancelled_after = false;
        } in
        ap (λ (s : ScanEnd × W). after_scan j callback r (watch_root j callback runs) s.0 s.1)
          (scan_past before ((false, long) ∷ later) w h
            ∙ scan_long long later (over before w) long_one)
        ∙ ap (λ w'. (in_wait, w')) (over-times before w)
