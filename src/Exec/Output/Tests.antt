-- ===== src/Exec/Output/Tests.antt =====
-- A process that writes to both streams and exits: server/exec/handler.go.
use flit_el.Prelude.{refl, true, false, [], ◌∷◌, codes, text_eq, text_beq}
use flit_el.Prelude.Int64.{pos}
use flit_el.Exec.Output.{
  Streams, Reach, here, next, reads, counts_down, exits, ExitIsLast, begin_reading, read_round,
  reader_done, send_exit, phase_of, set_phase, exit_after_output,
}

abbrev one_stopped : Streams
one_stopped = read_round (codes "stderr") [] true (begin_reading false)

abbrev both_stopped : Streams
both_stopped = read_round (codes "stdout") (7 ∷ []) true one_stopped

abbrev both_ended : Streams
both_ended = reader_done (codes "stdout") (reader_done (codes "stderr") both_stopped)

ran : Reach (begin_reading false) (send_exit (pos 3) both_ended)
unfolding read_round reader_done begin_reading phase_of set_phase text_eq text_beq
ran =
    next
      (next
        (next
          (next (next here (reads (begin_reading false) (codes "stderr") [] true refl))
            (reads one_stopped (codes "stdout") (7 ∷ []) true refl))
          (counts_down both_stopped (codes "stderr") refl))
        (counts_down (reader_done (codes "stderr") both_stopped) (codes "stdout") refl))
      (exits both_ended (pos 3) refl refl)

exit_after_output_example : ExitIsLast (send_exit (pos 3) both_ended)
exit_after_output_example = exit_after_output false ran
