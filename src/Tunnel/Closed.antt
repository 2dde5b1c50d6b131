-- ===== src/Tunnel/Closed.antt =====
-- What CloseAll leaves of the connections: server/tunnel/tunnel.go.
use flit_el.Prelude.{
  ℕ, ◌≡◌, refl, sym, ◌∙◌, inl, inr, Option-cases, true, none, some, [], ◌∷◌, Text, text_eq, nat_eq,
}
use mathlib.Core.Path.{subst}
use flit_el.Prelude.GoMap.{GoMap, lookup, insert}
use flit_el.Prelude.Sweep.{Each, sweep, Visits, update_visits, sweep-Each}
use flit_el.Tunnel.{Connection, Manager, update, close_connection, close_each, close_all}

abbrev pub IsClosed : Connection → Type 0
IsClosed c = c.closed ≡ true

abbrev visit : ℕ → Manager → Manager
visit k m = update k close_connection m

abbrev store_of : Manager → GoMap ℕ Connection
store_of m = m.store

visit-store :
    (j : ℕ) (m : Manager) (c : Connection)
    → lookup j m.store ≡ some c
    → (visit j m).store ≡ insert j (close_connection c) m.store
unfolding update
visit-store j m c e = rw (e, update) refl

visit-absent : (j : ℕ) (m : Manager) → lookup j m.store ≡ none → visit j m ≡ m
unfolding update
visit-absent j m e = rw (e, update) refl

visits : Visits store_of visit IsClosed
unfolding close_connection
visits = update_visits store_of visit IsClosed close_connection visit-store visit-absent (λ c. refl)

close_each-sweep :
    (ks : GoMap Text ℕ) (m : Manager) → close_each ks m ≡ sweep store_of visit IsClosed ks m
unfolding close_each
close_each-sweep [] m = refl
close_each-sweep ((id, k) ∷ ks) m = close_each-sweep ks (visit k m)

visit-maps :
    (k : ℕ) (m : Manager) → ((visit k m).conns ≡ m.conns) × ((visit k m).listeners ≡ m.listeners)
unfolding update
visit-maps k m = elim (Option-cases (lookup k m.store)) [
  | inl e ↦ rw (visit-absent k m e) (refl, refl)
  | inr (c, e) ↦ rw (e, update) (refl, refl)
]

close_each-maps :
    (ks : GoMap Text ℕ) (m : Manager)
    → ((close_each ks m).conns ≡ m.conns) × ((close_each ks m).listeners ≡ m.listeners)
unfolding close_each
close_each-maps [] m = (refl, refl)
close_each-maps ((id, k) ∷ ks) m =
    let (c, l) = visit-maps k m in let (c', l') = close_each-maps ks (visit k m) in (c' ∙ c, l' ∙ l)

-- What CloseAll makes of the tunnels: neither map has an entry, and each connection that was in the map
-- is closed.
abbrev pub AllClosed : Manager → Manager → Type 0
AllClosed m m' = (m'.conns ≡ []) × (m'.listeners ≡ []) × Each IsClosed m.conns m.store m'.store

pub close_all-AllClosed : (m : Manager) → AllClosed m (close_all m)
unfolding close_all
close_all-AllClosed m =
    let cleared = record m { listeners = []; conns = [] } in
    let (conns, listeners) = close_each-maps m.conns cleared in
    (
      conns,
      listeners,
      subst (λ (m' : Manager). Each IsClosed m.conns m.store m'.store)
          (sym (close_each-sweep m.conns cleared))
          (sweep-Each store_of visit IsClosed visits m.conns cleared),
    )
