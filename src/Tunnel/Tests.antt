-- ===== src/Tunnel/Tests.antt =====
-- Runs of server/tunnel/tunnel.go on one connection.
use flit_el.Prelude.{
  ◌≡◌, refl, true, false, Option, none, some, List, [], ◌∷◌, ◌++◌, Bytes, Text, text_eq, text_beq,
  nat_eq, codes,
}
use flit_el.Prelude.GoMap.{lookup, insert, erase}
use flit_el.Tunnel.{
  Manager, Connection, panics, new_connection, new_manager, connect, send_data, write_next, accept,
  accept_notice, start_cleanup, update, enqueue,
}
use flit_el.Tunnel.Order.{IsAt, run, accepted, written_in_order}
use flit_el.Tunnel.Closing.{send_data_panics}

abbrev id : Text
id = 99 ∷ []

abbrev tunnel : Text
tunnel = 116 ∷ []

abbrev with_connection : Connection → Manager
with_connection c = record {
  listeners = [];
  conns = (id, 0) ∷ [];
  store = (0, c) ∷ [];
  next_key = 1;
  conn_id_gen = 0;
  notices = [];
}

abbrev fresh : Connection
fresh = new_connection id tunnel

connected : connect id tunnel true new_manager ≡ (true, with_connection fresh)
unfolding connect new_manager insert erase lookup
connected = refl

-- An accepted connection replaces one that the client has made with the same id.
accepted_twice :
    (accept tunnel (connect (codes "t-1") tunnel true new_manager).1).conns ≡ (codes "t-1", 1) ∷ []
unfolding accept connect new_manager insert erase lookup text_eq text_beq
accepted_twice = refl

accept_told : (accept tunnel new_manager).notices ≡ accept_notice tunnel (codes "t-1") ∷ []
unfolding accept new_manager
accept_told = refl

connected_twice : connect id tunnel true (with_connection fresh) ≡ (false, with_connection fresh)
unfolding connect lookup text_eq text_beq
connected_twice = refl

fresh-IsAt : IsAt id 0 fresh (with_connection fresh)
unfolding lookup text_eq text_beq
fresh-IsAt = (refl, refl)

abbrev events : List (Option Bytes)
events = some (1 ∷ 2 ∷ []) ∷ some (3 ∷ []) ∷ none ∷ []

abbrev one_written : Connection
one_written = record fresh { queue = (3 ∷ []) ∷ []; written = (1 ∷ 2 ∷ []) ∷ [] }

ran : run id 0 events (with_connection fresh) ≡ some (with_connection one_written)
unfolding send_data write_next update enqueue lookup insert erase text_eq text_beq
ran = refl

written_in_order_example :
    (c' : Connection) × IsAt id 0 c' (with_connection one_written)
    × (c'.written ++ c'.queue ≡ [] ++ accepted events)
written_in_order_example =
    written_in_order id 0 events fresh (with_connection fresh) (with_connection one_written)
      fresh-IsAt ran

one_written-IsAt : IsAt id 0 one_written (with_connection one_written)
unfolding lookup text_eq text_beq
one_written-IsAt = (refl, refl)

send_data_panics_example :
    (send_data id (7 ∷ []) (start_cleanup 0 (with_connection fresh)).1).0 ≡ panics
send_data_panics_example = send_data_panics 0 (with_connection fresh) fresh (7 ∷ []) fresh-IsAt refl
