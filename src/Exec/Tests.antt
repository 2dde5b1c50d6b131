-- ===== src/Exec/Tests.antt =====
-- Runs of server/exec/handler.go on one process.
use flit_el.Prelude.{
  arith, ◌≡◌, refl, true, false, none, some, [], ◌∷◌, Text, text_eq, text_beq, nat_eq,
}
use flit_el.Prelude.GoMap.{lookup, insert, erase}
use flit_el.Prelude.Int64.{pos}
use flit_el.Exec.{
  Manager, new_manager, new_process, begin_process, store_process, input, ignored, queued, enqueue,
  update, mark_closed, close_channel, wait_for_exit,
}
use flit_el.Exec.Input.{
  enter_close, leave_close, begins, stores, marks, closes, Reach, here, next, is_panic,
  input_never_panics, exit_before_store,
}

abbrev id : Text
id = 112 ∷ []

abbrev started : Manager
started = store_process id 0 (begin_process id false new_manager)

abbrev marked : Manager
marked = update 0 (λ p. enter_close (mark_closed p)) started

one_marked :
    lookup 0 marked.store
    ≡ some (record (new_process id false) { input_closed = true; closers = 1 })
unfolding enter_close store_process begin_process new_manager update mark_closed lookup insert erase
one_marked = refl

abbrev closed : Manager
closed = update 0 (λ q. leave_close (close_channel q)) marked

after_close : Reach new_manager closed
after_close =
    next
      (next
        (next (next here (begins new_manager id false))
          (stores (begin_process id false new_manager) id 0))
        (marks started 0))
      (closes marked 0 (record (new_process id false) { input_closed = true; closers = 1 })
        one_marked (omega arith))

input_never_panics_example : is_panic (input id (7 ∷ []) closed).0 ≡ false
input_never_panics_example = input_never_panics closed id (7 ∷ []) after_close

-- Input is queued before the input is closed, and ignored after.
queued_then_ignored :
    ((input id (7 ∷ []) started).0 ≡ queued) × ((input id (7 ∷ []) closed).0 ≡ ignored)
unfolding enter_close leave_close input store_process begin_process new_manager update mark_closed
    close_channel enqueue lookup insert erase text_eq text_beq
queued_then_ignored = (refl, refl)

no_process : lookup id new_manager.processes ≡ none
unfolding new_manager lookup
no_process = refl

exit_before_store_example :
    (let m' = store_process id 0 (wait_for_exit id (pos 1) (begin_process id false new_manager)) in
      (m'.exits ≡ (id, pos 1) ∷ [])
      × (lookup id m'.processes ≡ some 0)
      × (lookup 0 m'.store ≡ some (new_process id false)))
unfolding new_manager
exit_before_store_example = exit_before_store id false (pos 1) new_manager no_process
