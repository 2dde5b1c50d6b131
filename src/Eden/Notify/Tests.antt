-- ===== src/Eden/Notify/Tests.antt =====
-- Two runs of `eden notify`, and one with a line that is too long: server/eden/eden.go.
use flit_el.Prelude.{
  ℕ, zero, suc, ◌≡◌, refl, arith, true, false, some, [], ◌∷◌, ◌++◌, Text, codes, length, leb,
  leb-true, has_prefix,
}
use flit_el.Eden.Notify.{
  Json, running, next_run, in_wait, max_line, has_commit_transition, watch_root,
}
use flit_el.Eden.Notify.Callbacks.{
  runs_printing, uncancelled, transitions, times, callback_for_each_transition,
  long_line_stops_callbacks,
}

-- A line is one change, a CommitTransition if it starts so.
abbrev json : Json
json = record {
  Change = Text;
  changes_of = λ line. some (line ∷ []);
  transition_of = λ c. some (has_prefix c (codes "CommitTransition"));
}

abbrev checkout : Text
checkout = codes "CommitTransition a b"

abbrev quoted : Text
quoted = codes "name: CommitTransition"

one_transition : has_commit_transition json quoted ≡ false
unfolding has_commit_transition has_prefix
one_transition = refl

filler : ℕ → Text
filler zero = []
filler (suc n) = b'a' ∷ filler n

length-filler : (n : ℕ) → length (filler n) ≡ n
unfolding filler
length-filler zero = refl
length-filler (suc n) = omega (arith, length-filler n)

callback_for_each_transition_example :
    watch_root json suc (runs_printing ((quoted ∷ checkout ∷ []) ∷ (checkout ∷ []) ∷ [])) 0
    ≡ (next_run, times json suc (transitions json (quoted ∷ checkout ∷ checkout ∷ [])) 0)
callback_for_each_transition_example =
    callback_for_each_transition json suc ((quoted ∷ checkout ∷ []) ∷ (checkout ∷ []) ∷ []) 0
      ((refl, (refl, tt)), ((refl, tt), tt))

too_long : (n : ℕ) → leb n (length (filler n)) ≡ true
too_long n = leb-true n (length (filler n)) (omega (arith, length-filler n))

long_line_stops_callbacks_example :
    watch_root json suc
      (record {
        cancelled_before = false;
        begun =
            running
              (uncancelled (checkout ∷ []) ++ ((false, filler max_line) ∷ (false, checkout) ∷ []));
        exits = false;
        cancelled_after = false;
      }
        ∷ [])
      0
    ≡ (in_wait, times json suc (transitions json (checkout ∷ [])) 0)
long_line_stops_callbacks_example =
    long_line_stops_callbacks json suc (checkout ∷ []) (filler max_line) ((false, checkout) ∷ []) []
      0 (refl, tt) (too_long max_line)
