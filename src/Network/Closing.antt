-- ===== src/Network/Closing.antt =====
-- What happens to a connection behind its disconnect.
use blockchain_workshop.Prelude.{ℕ, [], ◌≡◌, refl, ap, true, false}
use blockchain_workshop.Prelude.Dict.{remove}
use blockchain_workshop.Network.Address.{TcpAddress_eq}
use blockchain_workshop.Network.Server.{
  TcpConnection, TcpServer, disconnected_from, notify, close, disconnect, recv_rounds,
}
use blockchain_workshop.Network.Framing.{rounds_closed}

disconnect_open :
    (conn : TcpConnection) (srv : TcpServer)
    → conn.connected ≡ true
    → disconnect (conn, srv) ≡ close true (conn, srv)
unfolding disconnect
disconnect_open conn srv up = rw (disconnect, up) refl

-- A connection that is disconnected leaves the table, its listeners are told once that this was
-- asked for, and neither another disconnect nor any number of rounds of its thread does more.
pub disconnect_once :
    (n : ℕ) (conn : TcpConnection) (srv : TcpServer)
    → conn.connected ≡ true
    → ((disconnect (conn, srv)).1
        ≡ notify
            (disconnected_from conn.addr true)
            (record srv { conns = remove conn.addr srv.conns }))
      × (disconnect (disconnect (conn, srv)) ≡ disconnect (conn, srv))
      × (recv_rounds n (disconnect (conn, srv)) ≡ disconnect (conn, srv))
unfolding disconnect close
disconnect_once n conn srv up =
    let run = disconnect_open conn srv up in
    let gone = record conn { connected = false; incoming = [] } in
    let told =
      notify (disconnected_from conn.addr true)
        (record srv { conns = remove conn.addr srv.conns }) in
    (ap (λ s. s.1) run, rw run refl, rw run (rounds_closed n gone told refl refl))
