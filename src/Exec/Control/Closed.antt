-- ===== src/Exec/Control/Closed.antt =====
-- What Close leaves of the processes: server/exec/handler.go.
use flit_el.Prelude.{ℕ, ◌≡◌, refl, sym, true, none, some, [], ◌∷◌, Text, text_eq, nat_eq}
use mathlib.Core.Path.{subst}
use flit_el.Prelude.GoMap.{GoMap, lookup, insert}
use flit_el.Prelude.Sweep.{Each, sweep, Visits, update_visits, sweep-Each}
use flit_el.Exec.{Process, Manager, close_input_of, update, mark_closed, close_channel}
use flit_el.Exec.Control.{close_each, close_all_processes}

-- The input takes no more data, and its channel is closed.
abbrev pub IsClosed : Process → Type 0
IsClosed p = (p.input_closed ≡ true) × (p.channel_closed ≡ true)

abbrev visit : ℕ → Manager → Manager
visit k m = close_input_of (some k) m

abbrev store_of : Manager → GoMap ℕ Process
store_of m = m.store

abbrev closed : Process → Process
closed p = close_channel (mark_closed p)

-- The store after a visit of an object that is there.
visit-store :
    (j : ℕ) (m : Manager) (p : Process)
    → lookup j m.store ≡ some p
    → (visit j m).store ≡ insert j (closed p) m.store
unfolding close_input_of update
visit-store j m p e = rw (e, update) refl

visit-absent : (j : ℕ) (m : Manager) → lookup j m.store ≡ none → visit j m ≡ m
unfolding close_input_of update
visit-absent j m e = rw (e, update) refl

visits : Visits store_of visit IsClosed
unfolding close_channel mark_closed
visits = update_visits store_of visit IsClosed closed visit-store visit-absent (λ p. (refl, refl))

close_each-sweep :
    (ps : GoMap Text ℕ) (m : Manager) → close_each ps m ≡ sweep store_of visit IsClosed ps m
unfolding close_each
close_each-sweep [] m = refl
close_each-sweep ((id, k) ∷ ps) m = close_each-sweep ps (visit k m)

-- What Close makes of the processes: none is in the map, and each that was there takes no more input,
-- and its channel is closed, so that its writer ends.
abbrev pub AllClosed : Manager → Manager → Type 0
AllClosed m m' = (m'.processes ≡ []) × Each IsClosed m.processes m.store m'.store

pub close_all_processes-AllClosed : (m : Manager) → AllClosed m (close_all_processes m)
unfolding close_all_processes
close_all_processes-AllClosed m = (
  refl,
  subst (λ (m' : Manager). Each IsClosed m.processes m.store m'.store)
      (sym (close_each-sweep m.processes m))
      (sweep-Each store_of visit IsClosed visits m.processes m),
)
