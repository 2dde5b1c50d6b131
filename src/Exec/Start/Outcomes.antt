-- ===== src/Exec/Start/Outcomes.antt =====
-- What a Start leaves that returns an id, and one that returns an error: server/exec/handler.go.
use flit_el.Prelude.{
  ℕ, ◌≡◌, ◌≢◌, refl, inl, inr, sym, codes, ◌∙◌, ap, Bool, true, false, some, List, [], ◌∷◌, ◌++◌,
  Bytes, Text, text_eq, nat_eq, is_empty, ◌==◌, ==_self, ==_iff, if◌then◌else◌, Bool-cases,
}
use flit_el.Prelude.GoMap.{lookup, insert, lookup-insert}
use flit_el.Prelude.Int64.{add_one_int64}
use flit_el.Prelude.Results.{Result, ok, err}
use flit_el.Exec.{
  Manager, InputResult, queued, new_process, begin_process, store_process, input, update, enqueue,
}
use flit_el.Exec.Pty.{size_or}
use flit_el.Exec.Start.{
  StartParams, Answers, Call, cancelled, start, proc_id_of, numbered_id, launch, start_on_pty,
  start_on_pipes, or_cancel, finish_start, slave_opened_as, slave_named, after_calls, start_env,
  command, on_pty,
}

-- A text after which the context is cancelled.
abbrev pub EndsCancelled : List Call → Type 0
EndsCancelled [] = ⊥
EndsCancelled (c ∷ []) = c ≡ cancelled
EndsCancelled (c ∷ d ∷ cs) = EndsCancelled (d ∷ cs)

-- An error comes after the context has been cancelled.
abbrev Cleans : Result Text (Unit {0}) × List Call → Type 0
Cleans r = (t : Text) → r.0 ≡ err t → EndsCancelled r.1

EndsCancelled-cons : (c : Call) (cs : List Call) → EndsCancelled cs → EndsCancelled (c ∷ cs)
EndsCancelled-cons c [] h = absurd h
EndsCancelled-cons c (d ∷ cs) h = h

slave_opened_as-Cleans :
    (path : Text) (r : Result Text (Unit {0})) → Cleans (slave_opened_as path r)
unfolding slave_opened_as
slave_opened_as-Cleans path (ok u) t e = cc
slave_opened_as-Cleans path (err u) t e = refl

slave_named-Cleans :
    (r : Result Text Text) (opened : Result Text (Unit {0})) → Cleans (slave_named r opened)
unfolding slave_named
slave_named-Cleans (ok path) opened t e = slave_opened_as-Cleans path opened t e
slave_named-Cleans (err u) opened t e = refl

start_on_pty-Cleans : (a : Answers) (r : Result Text (Unit {0})) → Cleans (start_on_pty a r)
unfolding start_on_pty
start_on_pty-Cleans a (ok u) t e = slave_named-Cleans a.slave_name a.slave_opened t e
start_on_pty-Cleans a (err u) t e = refl

or_cancel-Cleans :
    (message : Text) (r : Result Text (Unit {0})) (rest : Result Text (Unit {0}) × List Call)
    → Cleans rest
    → Cleans (or_cancel message r rest)
unfolding or_cancel
or_cancel-Cleans message (ok u) rest h t e = h t e
or_cancel-Cleans message (err u) rest h t e = refl

done-Cleans : Cleans (ok tt, [])
done-Cleans t e = cc

start_on_pipes-Cleans : (a : Answers) → Cleans (start_on_pipes a)
unfolding start_on_pipes
start_on_pipes-Cleans a = or_cancel-Cleans (codes "failed to create stdin pipe") a.stdin_pipe _ (
    or_cancel-Cleans (codes "failed to create stdout pipe") a.stdout_pipe _ (
      or_cancel-Cleans (codes "failed to create stderr pipe") a.stderr_pipe _
        (or_cancel-Cleans (codes "failed to start process") a.started (ok tt, []) done-Cleans)))

after_calls-Cleans :
    (c : Call) (cs : List Call) (r : Result Text (Unit {0}) × List Call)
    → Cleans r
    → Cleans (after_calls (c ∷ cs) r)
unfolding after_calls
after_calls-Cleans c [] r h t e = EndsCancelled-cons c r.1 (h t e)
after_calls-Cleans c (d ∷ cs) r h t e =
    EndsCancelled-cons c ((d ∷ cs) ++ r.1) (after_calls-Cleans d cs r h t e)

if-Cleans :
    (b : Bool) (r : Result Text (Unit {0}) × List Call) (r' : Result Text (Unit {0}) × List Call)
    → Cleans r
    → Cleans r'
    → Cleans (if b then r else r')
if-Cleans true r r' h h' = h
if-Cleans false r r' h h' = h'

launch-Cleans : (a : Answers) (p : StartParams) → Cleans (launch a p)
unfolding launch
launch-Cleans a p =
    let made = command p.cmd p.args p.cwd (start_env p a.environ) in
    let sized = on_pty (size_or 24 p.rows) (size_or 80 p.cols) in
    let pty = start_on_pty a a.started_on_pty in
    if-Cleans p.is_pty (after_calls (made ∷ sized ∷ []) pty)
      (after_calls (made ∷ []) (start_on_pipes a))
      (after_calls-Cleans made (sized ∷ []) pty (start_on_pty-Cleans a a.started_on_pty))
      (after_calls-Cleans made [] (start_on_pipes a) (start_on_pipes-Cleans a))

proc_id_of-keeps :
    (p : StartParams) (m : Manager)
    → ((proc_id_of p m).1.processes ≡ m.processes)
      × ((proc_id_of p m).1.store ≡ m.store)
      × ((proc_id_of p m).1.next_key ≡ m.next_key)
      × ((proc_id_of p m).0
          ≡ (if is_empty p.proc_id then numbered_id (add_one_int64 m.next_id) else p.proc_id))
      × ((proc_id_of p m).1.next_id
          ≡ (if is_empty p.proc_id then add_one_int64 m.next_id else m.next_id))
unfolding proc_id_of
proc_id_of-keeps p m = elim (Bool-cases (is_empty p.proc_id)) [
  | inl b ↦ rw (b, proc_id_of) (refl, refl, refl, refl, refl)
  | inr b ↦ rw (b, proc_id_of) (refl, refl, refl, refl, refl)
]

-- The manager at the end of a Start that succeeds.
abbrev stored : Text → Bool → Manager → Manager
stored id is_pty m = store_process id m.next_key (begin_process id is_pty m)

finish_start-ok :
    (id id' : Text) (is_pty : Bool) (r : Result Text (Unit {0})) (m : Manager)
    → (finish_start id is_pty r m).0 ≡ ok id'
    → (id ≡ id') × ((finish_start id is_pty r m).1 ≡ stored id is_pty m)
unfolding finish_start
finish_start-ok id id' is_pty (err u) m e = (cc, cc)
finish_start-ok id id' is_pty (ok u) m e = (cc, refl)

input-stored :
    (id : Text) (is_pty : Bool) (bytes : Bytes) (m : Manager)
    → input id bytes (stored id is_pty m)
      ≡ (queued, update m.next_key (enqueue bytes) (stored id is_pty m))
unfolding input store_process begin_process
input-stored id is_pty bytes m =
    rw
      (
        lookup-insert id id m.next_key m.processes,
        ==_self id,
        lookup-insert m.next_key m.next_key (new_process id is_pty) m.store,
        ==_self m.next_key,
        input,
      )
      refl

finish_start-err :
    (id : Text) (is_pty : Bool) (r : Result Text (Unit {0})) (m : Manager) (t : Text)
    → (finish_start id is_pty r m).0 ≡ err t
    → (r ≡ err t) × ((finish_start id is_pty r m).1 ≡ m)
unfolding finish_start
finish_start-err id is_pty (err u) m t e = (cc, refl)
finish_start-err id is_pty (ok u) m t e = (cc, cc)

-- Where Start returns an error, the processes are what they were, and the last call has cancelled
-- the context of the command.
pub failed_start_keeps :
    (a : Answers) (p : StartParams) (m : Manager) (t : Text)
    → (start a p m).0 ≡ err t
    → ((start a p m).2.processes ≡ m.processes)
      × ((start a p m).2.store ≡ m.store)
      × EndsCancelled (start a p m).1
unfolding start
failed_start_keeps a p m t e =
    let named = proc_id_of p m in
    let (failed, kept) = finish_start-err named.0 p.is_pty (launch a p).0 named.1 t e in
    (
      ap (λ (m' : Manager). m'.processes) kept ∙ (proc_id_of-keeps p m).0,
      ap (λ (m' : Manager). m'.store) kept ∙ (proc_id_of-keeps p m).1,
      launch-Cleans a p t failed,
    )

lookup-updated :
    (id : Text) (is_pty : Bool) (bytes : Bytes) (m : Manager)
    → lookup m.next_key (update m.next_key (enqueue bytes) (stored id is_pty m)).store
      ≡ some (enqueue bytes (new_process id is_pty))
unfolding update store_process begin_process
lookup-updated id is_pty bytes m =
    let p = new_process id is_pty in
    let store = insert m.next_key p m.store in
    rw (lookup-insert m.next_key m.next_key p m.store, ==_self m.next_key, update)
      (lookup-insert m.next_key m.next_key (enqueue bytes p) store ∙ rw (==_self m.next_key) refl)

lookup-stored :
    (id other : Text) (is_pty : Bool) (m : Manager)
    → other ≢ id
    → lookup other (stored id is_pty m).processes ≡ lookup other m.processes
unfolding store_process begin_process
lookup-stored id other is_pty m ne = elim (Bool-cases (id == other)) [
  | inl t ↦ absurd (ne (sym ((==_iff id other).0 t)))
  | inr t ↦ lookup-insert id other m.next_key m.processes ∙ rw t refl
]

-- Where Start returns an id, it is that of the params, or, if they have none, one with the next number
-- of the counter, which is an int64 and is then counted up; input for the id is queued for the new
-- process, whatever process it named before, and any other id names the process that it named.
pub started_takes_input :
    (a : Answers) (p : StartParams) (m : Manager) (id : Text) (bytes : Bytes) (other : Text)
    → (start a p m).0 ≡ ok id
    → other ≢ id
    → (id ≡ (if is_empty p.proc_id then numbered_id (add_one_int64 m.next_id) else p.proc_id))
      × ((start a p m).2.next_id
          ≡ (if is_empty p.proc_id then add_one_int64 m.next_id else m.next_id))
      × ((input id bytes (start a p m).2).0 ≡ queued)
      × (lookup m.next_key (input id bytes (start a p m).2).1.store
          ≡ some (enqueue bytes (new_process id p.is_pty)))
      × (lookup other (start a p m).2.processes ≡ lookup other m.processes)
unfolding start
started_takes_input a p m id bytes other e ne =
    let named = proc_id_of p m in
    let (processes, store, key, given, counter) = proc_id_of-keeps p m in
    let (same, ended) = finish_start-ok named.0 id p.is_pty (launch a p).0 named.1 e in
    let final : (start a p m).2 ≡ stored id p.is_pty named.1 =
      ended ∙ ap (λ i. stored i p.is_pty named.1) same in
    let taken = ap (input id bytes) final ∙ input-stored id p.is_pty bytes named.1 in
    let queue = update named.1.next_key (enqueue bytes) (stored id p.is_pty named.1) in
    (
      sym same ∙ given,
      ap (λ (m' : Manager). m'.next_id) final ∙ counter,
      ap (λ r. r.0) taken,
      ap (λ (r : InputResult × Manager). lookup m.next_key r.1.store) taken
          ∙ ap (λ (k : ℕ). lookup k queue.store) (sym key)
          ∙ lookup-updated id p.is_pty bytes named.1,
      ap (λ (m' : Manager). lookup other m'.processes) final
          ∙ lookup-stored id other p.is_pty named.1 ne
          ∙ ap (lookup other) processes,
    )
