-- ===== src/Tunnel.antt =====
-- server/tunnel/tunnel.go: listeners and connections of TCP tunnels.
-- Sockets are arguments: what net.Listen, net.Dial, Read and Write return. Connections are objects in
-- `store`, since the goroutines of a connection keep it after it has left `conns`. No other call runs
-- between the two locked parts of Connect. Log output is left out.
pub mod Order
pub mod Closing
pub mod Closed
mod Tests
use flit_el.Prelude.{
  ℕ, ◌+◌, ◌%◌, ◌^◌, ◌≡◌, Bool, true, false, Option, none, some, List, [], ◌∷◌, ◌++◌, Bytes, Text,
  text_eq, nat_eq, length, ltb, ◌==◌, if◌then◌else◌,
}
use flit_el.FsHandler.Stat.{digits}
use flit_el.Prelude.GoMap.{GoMap, lookup, insert, erase}

pub record Listener : Type 0 where
  pub port : ℕ

-- Connection; `queue` is what `writeCh` holds, `channel_closed` whether it is closed, and `written`
-- what has been written to the socket.
pub record Connection : Type 0 where
  pub id : Text
  pub tunnel_id : Text
  pub closed : Bool
  pub channel_closed : Bool
  pub queue : List Bytes
  pub written : List Bytes

-- The notifications tunnel/accept, tunnel/data and tunnel/disconnect, with the tunnel's and the connection's id.
pub data Notice : Type 0 where
  accept_notice : Text → Text → Notice
  data_notice : Text → Text → Bytes → Notice
  disconnect_notice : Text → Text → Notice

pub record Manager : Type 0 where
  pub listeners : GoMap Text Listener
  pub conns : GoMap Text ℕ
  pub store : GoMap ℕ Connection
  pub next_key : ℕ
  pub conn_id_gen : ℕ
  pub notices : List Notice

pub data SendResult : Type 0 where
  sent not_found buffer_full panics : SendResult

abbrev pub write_capacity : ℕ
write_capacity = 4096

-- NewManager
unfoldable pub new_manager : Manager
new_manager = record {
  listeners = [];
  conns = [];
  store = [];
  next_key = 0;
  conn_id_gen = 0;
  notices = [];
}

start_listener : Text → Option ℕ → Option Listener → Manager → Option ℕ × Manager
start_listener id port (some l) m = (none, m)
start_listener id none none m = (none, m)
start_listener id (some port) none m =
    (some port, record m { listeners = insert id (record { port = port }) m.listeners })

-- Listen, with the port that net.Listen got, if any; none where it returns an error
unfoldable pub listen : Text → Option ℕ → Manager → Option ℕ × Manager
unfolding start_listener
listen id port m = start_listener id port (lookup id m.listeners) m

stop_listener : Text → Option Listener → Manager → Bool × Manager
stop_listener id none m = (false, m)
stop_listener id (some l) m = (true, record m { listeners = erase id m.listeners })

-- Close; false where the tunnel is not there
unfoldable pub close_tunnel : Text → Manager → Bool × Manager
unfolding stop_listener
close_tunnel id m = stop_listener id (lookup id m.listeners) m

abbrev pub new_connection : Text → Text → Connection
new_connection id tunnel_id = record {
  id = id;
  tunnel_id = tunnel_id;
  closed = false;
  channel_closed = false;
  queue = [];
  written = [];
}

add_connection : Text → Text → Manager → Manager
add_connection id tunnel_id m = record m {
  conns = insert id m.next_key m.conns;
  store = insert m.next_key (new_connection id tunnel_id) m.store;
  next_key = m.next_key + 1;
}

dial : Text → Text → Bool → Option ℕ → Manager → Bool × Manager
unfolding add_connection
dial id tunnel_id dialed (some k) m = (false, m)
dial id tunnel_id false none m = (false, m)
dial id tunnel_id true none m = (true, add_connection id tunnel_id m)

-- Connect; `dialed` says whether net.Dial returns no error
unfoldable pub connect : Text → Text → Bool → Manager → Bool × Manager
unfolding dial
connect id tunnel_id dialed m = dial id tunnel_id dialed (lookup id m.conns) m

-- fmt.Sprintf("%s-%d", …), of a uint64
unfoldable pub conn_id : Text → ℕ → Text
unfolding digits
conn_id tunnel_id n = tunnel_id ++ (45 ∷ digits 20 n [])

accept_as : ℕ → Text → Text → Manager → Manager
unfolding add_connection
accept_as n id tunnel_id m =
    let m' = add_connection id tunnel_id m in
    record m' { conn_id_gen = n; notices = m.notices ++ accept_notice tunnel_id id ∷ [] }

-- A round of acceptLoop in which Accept returns a connection; a connection with its id is replaced.
unfoldable pub accept : Text → Manager → Manager
unfolding accept_as conn_id
accept tunnel_id m =
    let n = (m.conn_id_gen + 1) % 2 ^ 64 in accept_as n (conn_id tunnel_id n) tunnel_id m

-- A change of a connection through a pointer to it
unfoldable pub update : ℕ → (Connection → Connection) → Manager → Manager
update k f m = elim (lookup k m.store) [
  | none ↦ m
  | some c ↦ record m { store = insert k (f c) m.store }
]

unfoldable pub enqueue : Bytes → Connection → Connection
enqueue bytes c = record c { queue = c.queue ++ bytes ∷ [] }

-- The `select`: a send on a closed channel panics.
offer : ℕ → Bytes → Option Connection → Manager → SendResult × Manager
unfolding update enqueue
offer k bytes none m = (not_found, m)
offer k bytes (some c) m =
    if c.channel_closed
    then (panics, m)
    else if ltb (length c.queue) write_capacity
    then (sent, update k (enqueue bytes) m)
    else (buffer_full, m)

send_to : Bytes → Option ℕ → Manager → SendResult × Manager
unfolding offer
send_to bytes none m = (not_found, m)
send_to bytes (some k) m = offer k bytes (lookup k m.store) m

-- SendData
unfoldable pub send_data : Text → Bytes → Manager → SendResult × Manager
unfolding send_to
send_data id bytes m = send_to bytes (lookup id m.conns) m

-- cleanup up to the close of the channel; false where the connection was closed before
start_cleanup_of : ℕ → Option Connection → Manager → Bool × Manager
unfolding update
start_cleanup_of k none m = (false, m)
start_cleanup_of k (some c) m =
    if c.closed
    then (false, m)
    else (true, update k (λ c. record c { closed = true; channel_closed = true }) m)

unfoldable pub start_cleanup : ℕ → Manager → Bool × Manager
unfolding start_cleanup_of
start_cleanup k m = start_cleanup_of k (lookup k m.store) m

-- The rest of cleanup
unfoldable pub finish_cleanup : Connection → Manager → Manager
finish_cleanup c m = record m {
  conns = erase c.id m.conns;
  notices = m.notices ++ disconnect_notice c.tunnel_id c.id ∷ [];
}

finish_if_started : Option Connection → Bool × Manager → Manager
unfolding finish_cleanup
finish_if_started (some c) (true, m) = finish_cleanup c m
finish_if_started o (started, m) = m

-- cleanup
unfoldable pub cleanup : ℕ → Manager → Manager
unfolding start_cleanup finish_if_started
cleanup k m = finish_if_started (lookup k m.store) (start_cleanup k m)

abbrev take_next : Connection → List Bytes → Connection
take_next c [] = c
take_next c (bytes ∷ rest) = record c { queue = rest; written = c.written ++ bytes ∷ [] }

-- One round of writeLoop in which Write returns no error; with an error it is cleanup.
unfoldable pub write_next : ℕ → Manager → Manager
unfolding update
write_next k m = update k (λ c. take_next c c.queue) m

-- One Read of readLoop that returns data; with an error it is cleanup.
unfoldable pub read_data : ℕ → Bytes → Manager → Manager
read_data k bytes m = elim (lookup k m.store) [
  | none ↦ m
  | some c ↦ record m { notices = m.notices ++ data_notice c.tunnel_id c.id bytes ∷ [] }
]

-- (*Connection).close
unfoldable pub close_connection : Connection → Connection
close_connection c = record c { closed = true }

drop_connection : Text → Option ℕ → Manager → Manager
unfolding update close_connection
drop_connection id none m = m
drop_connection id (some k) m = update k close_connection (record m { conns = erase id m.conns })

-- Disconnect
unfoldable pub disconnect : Text → Manager → Manager
unfolding drop_connection
disconnect id m = drop_connection id (lookup id m.conns) m

unfoldable pub close_each : GoMap Text ℕ → Manager → Manager
unfolding update close_connection
close_each [] m = m
close_each ((id, k) ∷ ks) m = close_each ks (update k close_connection m)

-- CloseAll
unfoldable pub close_all : Manager → Manager
unfolding close_each
close_all m = close_each m.conns (record m { listeners = []; conns = [] })
