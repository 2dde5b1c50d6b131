-- ===== src/Exec/Pty/Tests.antt =====
-- One terminal session of server/exec/pty.go, which ends.
use flit_el.Prelude.{◌≡◌, refl, true, none, some, [], ◌∷◌, codes, text_eq, text_beq, arith}
use flit_el.Prelude.GoMap.{lookup}
use flit_el.Prelude.Int64.{pos, int_eq, add_one_int64}
use flit_el.Prelude.Results.{ok}
use flit_el.Exec.Control.{signal_of, sighup}
use flit_el.Exec.Pty.{new_pty, PtyManager, new_pty_manager, create, pty_exited, pty_env, exited_ok}
use flit_el.Exec.Pty.Fresh.{start, next, creates, exits, create_fresh}

abbrev one_pty : PtyManager
one_pty = pty_exited (pos 1) exited_ok (create true new_pty_manager).1

create_fresh_example :
    ((create true one_pty).0 ≡ ok (pos 2))
    × (lookup (pos 2) one_pty.ptys ≡ none)
    × (lookup (pos 2) (create true one_pty).1.ptys ≡ some new_pty)
    × (lookup (pos 1) (create true one_pty).1.ptys ≡ lookup (pos 1) one_pty.ptys)
unfolding new_pty_manager create add_one_int64 pty_exited
create_fresh_example =
    create_fresh one_pty 1 (pos 1)
      (next (next start (creates true new_pty_manager 0 refl (omega arith)))
        (exits (pos 1) exited_ok (create true new_pty_manager).1))
      refl (omega arith) refl

term_added : pty_env [] [] ≡ codes "TERM=xterm-256color" ∷ []
unfolding pty_env
term_added = refl

hangup : signal_of (codes "hangup") ≡ some sighup
unfolding signal_of text_eq text_beq
hangup = refl
