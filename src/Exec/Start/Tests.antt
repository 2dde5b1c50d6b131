-- ===== src/Exec/Start/Tests.antt =====
-- Starting a command, and what fails: server/exec/handler.go.
use flit_el.Prelude.{
  ◌≡◌, ◌≢◌, arith, ap, length, if◌then◌else◌, refl, true, false, some, [], ◌∷◌, Text, codes,
  text_eq, text_beq, nat_eq, is_empty,
}
use flit_el.Prelude.GoMap.{lookup}
use flit_el.Prelude.Int64.{add_one_int64}
use flit_el.Prelude.Results.{ok, err}
use flit_el.Exec.{new_manager, new_process, enqueue, queued, input}
use flit_el.Exec.Start.{
  StartParams, Answers, start, start_env, proc_id_of, numbered_id, launch, start_on_pipes,
}
use flit_el.Exec.Start.Outcomes.{EndsCancelled, failed_start_keeps, started_takes_input}

abbrev shell : StartParams
shell = record {
  proc_id = [];
  cmd = codes "sh";
  args = [];
  cwd = [];
  env = (codes "A", codes "1") ∷ [];
  is_pty = false;
  rows = 0;
  cols = 0;
}

abbrev all_well : Answers
all_well = record {
  environ = codes "HOME=/" ∷ [];
  started_on_pty = ok tt;
  slave_name = ok (codes "/dev/pts/3");
  slave_opened = ok tt;
  stdin_pipe = ok tt;
  stdout_pipe = ok tt;
  stderr_pipe = ok tt;
  started = ok tt;
}

abbrev no_command : Answers
no_command = record all_well { started = err (codes "not found") }

env_on_pty :
    start_env (record shell { is_pty = true }) all_well.environ
    ≡ codes "HOME=/" ∷ codes "A=1" ∷ codes "TERM=xterm-256color" ∷ []
unfolding start_env text_eq text_beq
env_on_pty = refl

failed : (start no_command shell new_manager).0 ≡ err (codes "failed to start process: not found")
unfolding start launch start_on_pipes proc_id_of
failed = refl

began : (start all_well shell new_manager).0 ≡ ok (codes "proc-1")
unfolding start launch start_on_pipes proc_id_of new_manager numbered_id add_one_int64
began = refl

failed_start_keeps_example :
    ((start no_command shell new_manager).2.processes ≡ new_manager.processes)
    × ((start no_command shell new_manager).2.store ≡ new_manager.store)
    × EndsCancelled (start no_command shell new_manager).1
failed_start_keeps_example =
    failed_start_keeps no_command shell new_manager (codes "failed to start process: not found")
      failed

other_id : ◌≢◌ {A = Text} [] (codes "proc-1")
other_id e = omega (arith, ap length e)

started_takes_input_example :
    (codes "proc-1" ≡ (
      if is_empty shell.proc_id
      then numbered_id (add_one_int64 new_manager.next_id)
      else shell.proc_id))
    × ((start all_well shell new_manager).2.next_id ≡ (
        if is_empty shell.proc_id then add_one_int64 new_manager.next_id else new_manager.next_id))
    × ((input (codes "proc-1") (7 ∷ []) (start all_well shell new_manager).2).0 ≡ queued)
    × (lookup new_manager.next_key
          (input (codes "proc-1") (7 ∷ []) (start all_well shell new_manager).2).1.store
        ≡ some (enqueue (7 ∷ []) (new_process (codes "proc-1") false)))
    × (lookup ([]) (start all_well shell new_manager).2.processes
        ≡ lookup ([]) new_manager.processes)
started_takes_input_example =
    started_takes_input all_well shell new_manager (codes "proc-1") (7 ∷ []) ([]) began other_id
