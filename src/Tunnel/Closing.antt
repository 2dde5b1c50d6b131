-- ===== src/Tunnel/Closing.antt =====
-- How connections end: server/tunnel/tunnel.go.
use flit_el.Prelude.{
  ℕ, ◌≡◌, refl, ap, ◌∙◌, true, false, none, some, [], ◌∷◌, ◌++◌, Bytes, Text, text_eq, nat_eq,
  ==_self,
}
use flit_el.Prelude.GoMap.{lookup, erase, lookup-erase}
use flit_el.Tunnel.{
  Manager, Connection, disconnect_notice, panics, update, offer, send_to, send_data, start_cleanup,
  start_cleanup_of, finish_cleanup, finish_if_started, cleanup, close_connection, drop_connection,
  disconnect,
}
use flit_el.Tunnel.Order.{lookup-update, IsAt}

-- A connection that is closed is not cleaned up.
cleanup_closed :
    (k : ℕ) (m : Manager) (c : Connection)
    → lookup k m.store ≡ some c
    → c.closed ≡ true
    → cleanup k m ≡ m
unfolding cleanup start_cleanup
cleanup_closed k m c h e = rw (h, start_cleanup_of, e, finish_if_started) refl

cleanup_open :
    (k : ℕ) (m : Manager) (c : Connection)
    → lookup k m.store ≡ some c
    → c.closed ≡ false
    → cleanup k m
      ≡ finish_cleanup c (update k (λ c. record c { closed = true; channel_closed = true }) m)
unfolding cleanup start_cleanup
cleanup_open k m c h e = rw (h, start_cleanup_of, e, finish_if_started) refl

-- The clean-up of an open connection sends one tunnel/disconnect and takes its id out of `conns`,
-- and another clean-up of it changes nothing.
pub cleaned_up_once :
    (k : ℕ) (m : Manager) (c : Connection)
    → lookup k m.store ≡ some c
    → c.closed ≡ false
    → ((cleanup k m).notices ≡ m.notices ++ disconnect_notice c.tunnel_id c.id ∷ [])
      × (lookup c.id (cleanup k m).conns ≡ none)
      × (cleanup k (cleanup k m) ≡ cleanup k m)
unfolding finish_cleanup
cleaned_up_once k m c h e =
    let u = lookup-update k (λ c. record c { closed = true; channel_closed = true }) m c h in
    let m1 = update k (λ c. record c { closed = true; channel_closed = true }) m in
    rw (cleanup_open k m c h e) (
      ap (λ ns. ns ++ disconnect_notice c.tunnel_id c.id ∷ []) u.2,
      rw (lookup-erase c.id c.id m1.conns, ==_self c.id) refl,
      cleanup_closed k (finish_cleanup c m1) (record c { closed = true; channel_closed = true }) u.0
          refl,
    )

-- Disconnect of a connection takes it out of `conns`, marks it closed, leaves its write channel as it
-- is and sends nothing, and the clean-up that its loops then run changes nothing.
pub disconnect_silent :
    (id : Text) (k : ℕ) (m : Manager) (c : Connection)
    → IsAt id k c m
    → (cleanup k (disconnect id m) ≡ disconnect id m)
      × ((disconnect id m).notices ≡ m.notices)
      × (lookup k (disconnect id m).store ≡ some (record c { closed = true }))
      × (lookup id (disconnect id m).conns ≡ none)
unfolding disconnect drop_connection close_connection
disconnect_silent id k m c h =
    let m0 : Manager = record m { conns = erase id m.conns } in
    let u = lookup-update k close_connection m0 c h.1 in
    rw (h.0, drop_connection)
      (
        cleanup_closed k (update k close_connection m0) (close_connection c) u.0 refl,
        u.2,
        u.0,
        ap (λ x. lookup id x) u.1 ∙ rw (lookup-erase id id m.conns, ==_self id) refl,
      )

-- Between the close of the write channel and the removal of the connection from `conns`, which
-- cleanup does one after the other, SendData for the connection sends on a closed channel.
pub send_data_panics :
    (k : ℕ) (m : Manager) (c : Connection) (bytes : Bytes)
    → IsAt c.id k c m
    → c.closed ≡ false
    → (send_data c.id bytes (start_cleanup k m).1).0 ≡ panics
unfolding start_cleanup send_data
send_data_panics k m c bytes h e =
    let u = lookup-update k (λ c. record c { closed = true; channel_closed = true }) m c h.1 in
    rw (h.1, start_cleanup_of, e) (rw (u.1, h.0, send_to, u.0, offer) refl)
