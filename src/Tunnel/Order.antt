-- ===== src/Tunnel/Order.antt =====
-- The order of the data of a connection: server/tunnel/tunnel.go, SendData and writeLoop.
use flit_el.Prelude.{
  ℕ, ◌≡◌, refl, sym, ap, ◌∙◌, inl, inr, Bool, true, false, Option, none, some, List, [], ◌∷◌, ◌++◌,
  arith, Bytes, Text, text_eq, nat_eq, length, ltb, ==_self, if◌then◌else◌, Bool-cases,
}
use mathlib.Core.List.{append-nil, append_assoc}
use flit_el.Prelude.GoMap.{lookup, lookup-insert}
use flit_el.Tunnel.{
  Manager, Connection, SendResult, sent, not_found, buffer_full, panics, write_capacity, update,
  enqueue, offer, send_to, send_data, take_next, write_next,
}

pub lookup-update :
    (k : ℕ) (f : Connection → Connection) (m : Manager) (c : Connection)
    → lookup k m.store ≡ some c
    → (lookup k (update k f m).store ≡ some (f c))
      × ((update k f m).conns ≡ m.conns)
      × ((update k f m).notices ≡ m.notices)
unfolding update
lookup-update k f m c h =
    rw (h, update) (rw (lookup-insert k k (f c) m.store, ==_self k) refl, refl, refl)

-- Whether a result is that of a send that succeeded.
abbrev pub is_sent : SendResult → Bool
is_sent sent = true
is_sent not_found = false
is_sent buffer_full = false
is_sent panics = false

-- The connection's entry in the store, and its id in `conns`.
abbrev pub IsAt : Text → ℕ → Connection → Manager → Type 0
IsAt id k c m = (lookup id m.conns ≡ some k) × (lookup k m.store ≡ some c)

offer_sent :
    (id : Text) (k : ℕ) (bytes : Bytes) (c : Connection) (m : Manager)
    → IsAt id k c m
    → is_sent (offer k bytes (some c) m).0 ≡ true
    → IsAt id k (enqueue bytes c) (offer k bytes (some c) m).1
unfolding offer
offer_sent id k bytes c m h s = choice c.channel_closed (ltb (length c.queue) write_capacity) s
  where
    choice :
        (b l : Bool)
        → (let r : SendResult × Manager =
              (if b
                then (panics, m)
                else if l
                then (sent, update k (enqueue bytes) m)
                else (buffer_full, m)) in
            is_sent r.0 ≡ true → IsAt id k (enqueue bytes c) r.1)
    choice true l s = cc s
    choice false false s = cc s
    choice false true s =
        let u = lookup-update k (enqueue bytes) m c h.1 in (ap (λ x. lookup id x) u.1 ∙ h.0, u.0)

send_data_sent :
    (id : Text) (k : ℕ) (bytes : Bytes) (c : Connection) (m : Manager)
    → IsAt id k c m
    → is_sent (send_data id bytes m).0 ≡ true
    → IsAt id k (enqueue bytes c) (send_data id bytes m).1
unfolding send_data send_to
send_data_sent id k bytes c m h s =
    rw (h.0, send_to, h.1) (offer_sent id k bytes c m h (rw (h.0, send_to, h.1) at s))

-- Calls of SendData (some bytes) and rounds of writeLoop (none), in any order; none where a call
-- does not succeed.
abbrev pub run : Text → ℕ → List (Option Bytes) → Manager → Option Manager
run id k [] m = some m
run id k (none ∷ evs) m = run id k evs (write_next k m)
run id k (some bytes ∷ evs) m =
    if is_sent (send_data id bytes m).0 then run id k evs (send_data id bytes m).1 else none

abbrev pub accepted : List (Option Bytes) → List Bytes
accepted [] = []
accepted (none ∷ evs) = accepted evs
accepted (some bytes ∷ evs) = bytes ∷ accepted evs

take_next_keeps :
    (c : Connection) (q : List Bytes)
    → c.queue ≡ q
    → (take_next c q).written ++ (take_next c q).queue ≡ c.written ++ c.queue
take_next_keeps c [] e = refl
take_next_keeps c (b ∷ rest) e = append_assoc c.written (b ∷ []) rest ∙ ap (◌++◌ c.written) (sym e)

-- Whatever the order of calls of SendData that succeed and of rounds of writeLoop, what has been
-- written to the socket and what still waits are, together and in order, what they were before and
-- then the data of the calls: nothing is lost, doubled or moved.
pub written_in_order :
    (id : Text) (k : ℕ) (evs : List (Option Bytes)) (c : Connection) (m m' : Manager)
    → IsAt id k c m
    → run id k evs m ≡ some m'
    → (c' : Connection) × IsAt id k c' m'
      × (c'.written ++ c'.queue ≡ (c.written ++ c.queue) ++ accepted evs)
unfolding write_next enqueue
written_in_order id k [] c m m' h e =
    (c, ground (arith, h.0, h.1, e), sym (append-nil (c.written ++ c.queue)))
written_in_order id k (none ∷ evs) c m m' h e =
    let u = lookup-update k (λ c. take_next c c.queue) m c h.1 in
    let (c', at, w) =
      written_in_order id k evs (take_next c c.queue) (write_next k m) m'
        (ap (λ x. lookup id x) u.1 ∙ h.0, u.0) e in
    (c', at, w ∙ ap (λ (x : List Bytes). x ++ accepted evs) (take_next_keeps c c.queue refl))
written_in_order id k (some bytes ∷ evs) c m m' h e =
    elim (Bool-cases (is_sent (send_data id bytes m).0)) [
      | inl s ↦
          let (c', at, w) =
            written_in_order id k evs (enqueue bytes c) (send_data id bytes m).1 m'
              (send_data_sent id k bytes c m h s) (rw s at e) in
          (c', at, w ∙ simp append_assoc)
      | inr s ↦ cc (rw s at e)
    ]
