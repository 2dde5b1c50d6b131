-- ===== src/Exec/Input.antt =====
-- The input of processes, and how they end: server/exec/handler.go.
use flit_el.Prelude.{
  ℕ, ◌+◌, ◌-◌, ◌<◌, ap, ◌≡◌, refl, sym, ◌∙◌, inl, inr, Bool, true, false, Option, none, some, List,
  [], ◌∷◌, ◌++◌, arith, Bytes, Text, text_eq, nat_eq, length, ltb, ◌==◌, ==_self, if◌then◌else◌,
  Bool-cases, Option-cases,
}
use mathlib.Core.Path.{subst}
use flit_el.Prelude.GoMap.{lookup, insert, erase, lookup-insert, lookup-empty}
use flit_el.Prelude.Int64.{ℤ}
use flit_el.Exec.{
  Manager, Process, InputResult, queued, ignored, not_found, buffer_full, panics, input_capacity,
  new_manager, new_process, begin_process, store_process, update, enqueue, offer, input_to, input,
  mark_closed, close_channel, take_input, write_input, report_exit, close_input_of, wait_for_exit,
}

-- Where the channel is closed, or a goroutine is about to close it, `inputClosed` is set.
abbrev pub IsMarked : Process → Type 0
IsMarked p =
    (p.channel_closed ≡ true → p.input_closed ≡ true) × (0 < p.closers → p.input_closed ≡ true)

-- A goroutine comes to be between the two parts of closeInputCh, and leaves.
unfoldable pub enter_close : Process → Process
enter_close p = record p { closers = p.closers + 1 }

unfoldable pub leave_close : Process → Process
leave_close p = record p { closers = p.closers - 1 }

pub record IsGuarded (m : Manager) : Type 0 where
  pub at : (k : ℕ) (p : Process) → lookup k m.store ≡ some p → IsMarked p

abbrev pub is_panic : InputResult → Bool
is_panic panics = true
is_panic queued = false
is_panic ignored = false
is_panic not_found = false
is_panic buffer_full = false

insert-IsGuarded :
    (k : ℕ) (p : Process) (m : Manager) (j : ℕ) (q : Process)
    → IsGuarded m
    → IsMarked p
    → lookup j (insert k p m.store) ≡ some q
    → IsMarked q
insert-IsGuarded k p m j q v h e = elim (Bool-cases (k == j)) [
  | inl t ↦
      let same : p ≡ q = ground (arith, e, t, lookup-insert k j p m.store) in subst IsMarked same h
  | inr t ↦ v.at j q (sym (lookup-insert k j p m.store ∙ rw t refl) ∙ e)
]

update-IsGuarded :
    (k : ℕ) (f : Process → Process) (m : Manager)
    → IsGuarded m
    → ((p : Process) → lookup k m.store ≡ some p → IsMarked (f p))
    → IsGuarded (update k f m)
unfolding update
update-IsGuarded k f m v h = elim (Option-cases (lookup k m.store)) [
  | inl e ↦ rw (e, update) v
  | inr (p, e) ↦ rw (e, update) (record { at = λ j q. insert-IsGuarded k (f p) m j q v (h p e) })
]

offer-IsGuarded :
    (k : ℕ) (bytes : Bytes) (o : Option Process) (m : Manager)
    → lookup k m.store ≡ o
    → IsGuarded m
    → IsGuarded (offer k bytes o m).1
unfolding offer enqueue
offer-IsGuarded k bytes none m e v = v
offer-IsGuarded k bytes (some p) m e v =
    choice p.input_closed p.channel_closed (ltb (length p.input) input_capacity)
  where
    choice :
        (a b c : Bool)
        → (let r : InputResult × Manager =
              (if a
                then (ignored, m)
                else if b
                then (panics, m)
                else if c
                then (queued, update k (enqueue bytes) m)
                else (buffer_full, m)) in
            IsGuarded r.1)
    choice true b c = v
    choice false true c = v
    choice false false true = update-IsGuarded k (enqueue bytes) m v (v.at k)
    choice false false false = v

input_to-IsGuarded :
    (bytes : Bytes) (o : Option ℕ) (m : Manager) → IsGuarded m → IsGuarded (input_to bytes o m).1
unfolding input_to
input_to-IsGuarded bytes none m v = v
input_to-IsGuarded bytes (some k) m v = offer-IsGuarded k bytes (lookup k m.store) m refl v

input-IsGuarded :
    (id : Text) (bytes : Bytes) (m : Manager) → IsGuarded m → IsGuarded (input id bytes m).1
unfolding input
input-IsGuarded id bytes m v = input_to-IsGuarded bytes (lookup id m.processes) m v

-- What the goroutines of the program do, in any order; a goroutine that `marks` a process is then in
-- closeInputCh until it `closes`.
pub data Step : Manager → Manager → Type 0 where
  begins : (m : Manager) (id : Text) (is_pty : Bool) → Step m (begin_process id is_pty m)
  stores : (m : Manager) (id : Text) (k : ℕ) → Step m (store_process id k m)
  inputs : (m : Manager) (id : Text) (bytes : Bytes) → Step m (input id bytes m).1
  marks : (m : Manager) (k : ℕ) → Step m (update k (λ p. enter_close (mark_closed p)) m)
  closes :
      (m : Manager) (k : ℕ) (p : Process)
      → lookup k m.store ≡ some p
      → 0 < p.closers
      → Step m (update k (λ q. leave_close (close_channel q)) m)
  writes : (m : Manager) (k : ℕ) (ok : Bool) → Step m (update k (write_input ok) m)
  reports : (m : Manager) (id : Text) (code : ℤ) → Step m (report_exit id code m)

pub data Reach (m : Manager) : Manager → Type 0 where
  here : Reach m m
  next : {t u : Manager} → Reach m t → Step t u → Reach m u

either-IsMarked :
    (b : Bool) (p q : Process) → IsMarked p → IsMarked q → IsMarked (if b then p else q)
either-IsMarked true p q h k = h
either-IsMarked false p q h k = k

take_input-IsMarked :
    (ok : Bool) (p : Process) (q : List Bytes) → IsMarked p → IsMarked (take_input ok p q)
unfolding take_input
take_input-IsMarked ok p [] h = either-IsMarked p.channel_closed _ p h h
take_input-IsMarked true p (bytes ∷ rest) h = h
take_input-IsMarked false p (bytes ∷ rest) h = h

write_input-IsMarked : (ok : Bool) (p : Process) → IsMarked p → IsMarked (write_input ok p)
unfolding write_input
write_input-IsMarked ok p h =
    either-IsMarked p.writer_done p _ h (take_input-IsMarked ok p p.input h)

Step-IsGuarded : {m m' : Manager} → Step m m' → IsGuarded m → IsGuarded m'
unfolding begin_process store_process report_exit mark_closed close_channel enter_close leave_close
Step-IsGuarded (begins m id is_pty) v = record {
  at = λ j q.
      insert-IsGuarded m.next_key (new_process id is_pty) m j q v
        (λ c. cc c, λ l. absurd (omega (arith, l)));
}
Step-IsGuarded (stores m id k) v = record { at = v.at }
Step-IsGuarded (inputs m id bytes) v = input-IsGuarded id bytes m v
Step-IsGuarded (marks m k) v =
    update-IsGuarded k (λ p. enter_close (mark_closed p)) m v (λ p e. (λ c. refl, λ l. refl))
Step-IsGuarded (closes m k p e c) v =
    update-IsGuarded k (λ q. leave_close (close_channel q)) m v
      (λ q e'.
        let same : p ≡ q = cc (e, e') in
        let marked = (v.at k p e).1 c in
        let marked' = ap (λ (x : Process). x.input_closed) (sym same) ∙ marked in
        (λ d. marked', λ l. marked'))
Step-IsGuarded (writes m k ok) v =
    update-IsGuarded k (write_input ok) m v (λ p e. write_input-IsMarked ok p (v.at k p e))
Step-IsGuarded (reports m id code) v = record { at = v.at }

Reach-IsGuarded : {m : Manager} → Reach new_manager m → IsGuarded m
unfolding new_manager
Reach-IsGuarded here = record { at = λ k p e. cc (lookup-empty {V = Process} k, e) }
Reach-IsGuarded (next r s) = Step-IsGuarded s (Reach-IsGuarded r)

offer_safe :
    (k : ℕ) (bytes : Bytes) (o : Option Process) (m : Manager)
    → lookup k m.store ≡ o
    → IsGuarded m
    → is_panic (offer k bytes o m).0 ≡ false
unfolding offer
offer_safe k bytes none m e v = refl
offer_safe k bytes (some p) m e v =
    choice p.input_closed p.channel_closed (ltb (length p.input) input_capacity) (v.at k p e).0
  where
    choice :
        (a b c : Bool)
        → (b ≡ true → a ≡ true)
        → (let r : InputResult × Manager =
              (if a
                then (ignored, m)
                else if b
                then (panics, m)
                else if c
                then (queued, update k (enqueue bytes) m)
                else (buffer_full, m)) in
            is_panic r.0 ≡ false)
    choice true b c g = refl
    choice false true c g = cc (g refl)
    choice false false true g = refl
    choice false false false g = refl

input_to_safe :
    (bytes : Bytes) (o : Option ℕ) (m : Manager)
    → IsGuarded m
    → is_panic (input_to bytes o m).0 ≡ false
unfolding input_to
input_to_safe bytes none m v = refl
input_to_safe bytes (some k) m v = offer_safe k bytes (lookup k m.store) m refl v

-- In whatever order processes start, get input, are closed, write and exit, Input never sends on a
-- closed channel.
pub input_never_panics :
    (m : Manager) (id : Text) (bytes : Bytes)
    → Reach new_manager m
    → is_panic (input id bytes m).0 ≡ false
unfolding input
input_never_panics m id bytes r = input_to_safe bytes (lookup id m.processes) m (Reach-IsGuarded r)

-- After an exit that is waited for before Start stores the process, for an id that is not in use, the
-- exit has been reported, the process is in `processes`, and its input channel is open.
pub exit_before_store :
    (id : Text) (is_pty : Bool) (code : ℤ) (m : Manager)
    → lookup id m.processes ≡ none
    → (let m' = store_process id m.next_key (wait_for_exit id code (begin_process id is_pty m)) in
        (m'.exits ≡ m.exits ++ (id, code) ∷ [])
        × (lookup id m'.processes ≡ some m.next_key)
        × (lookup m.next_key m'.store ≡ some (new_process id is_pty)))
unfolding store_process wait_for_exit begin_process report_exit
exit_before_store id is_pty code m h =
    rw (h, close_input_of)
      (
        refl,
        rw (lookup-insert id id m.next_key (erase id m.processes), ==_self id) refl,
        rw (lookup-insert m.next_key m.next_key (new_process id is_pty) m.store, ==_self m.next_key)
            refl,
      )
