-- ===== src/Network/Server.antt =====
-- The classes TcpConnection and TcpServer of bcws/network.py. A connection object has a number, by
-- which the table of the connections knows it; what the listeners of the three events are told is a
-- list, the last event first. Listeners are called by safe_invoke, so that none raises here;
-- sendall takes all bytes.
use blockchain_workshop.Prelude.{
  ℕ, zero, suc, [], ◌∷◌, ◌++◌, List, Bool, true, false, Option, none, some, Result, ok, err, Action,
  Bytes, length, if◌then◌else◌,
}
use blockchain_workshop.Prelude.Words.{to_bytes4, from_bytes}
use blockchain_workshop.Prelude.Dict.{Dict, insert, remove}
use blockchain_workshop.Prelude.Actions.{lift, modify, ◌>>=◌}
use blockchain_workshop.Network.Address.{TcpAddress, TcpAddress_eq}
use blockchain_workshop.Network.Socket.{Socket, recv_exact}

pub record TcpConnection : Type 0 where
  pub object : ℕ
  pub addr : TcpAddress
  pub connected : Bool
  -- what is still to be read, and what was written
  pub incoming : Socket
  pub written : Bytes

pub data Event : Type 0 where
  connected_to : TcpAddress → Bool → Event
  message_from : TcpAddress → Bytes → Event
  disconnected_from : TcpAddress → Bool → Event

pub record TcpServer : Type 0 where
  pub addr : TcpAddress
  pub conns : Dict TcpAddress ℕ
  pub events : List Event

-- TcpServer(addr)
abbrev pub new : TcpAddress → TcpServer
new addr = record { addr = addr; conns = []; events = [] }

-- EventHandler.notify
unfoldable pub notify : Event → TcpServer → TcpServer
notify e srv = record srv { events = e ∷ srv.events }

unfoldable pub send_message : Bytes → Action TcpConnection (Unit {0})
send_message message conn =
    if conn.connected
    then (do
      len_bytes ← lift (to_bytes4 (length message))
      modify (λ c. record c { written = c.written ++ (len_bytes ++ message) }))
        conn
    else (ok tt, conn)

-- _create_conn for a socket on which `incoming` will arrive.
unfoldable pub create_conn : ℕ → Socket → TcpAddress → Bool → TcpServer → TcpConnection × TcpServer
create_conn object incoming addr initiated srv = (
  record { object = object; addr = addr; connected = true; incoming = incoming; written = [] },
  notify (connected_to addr initiated) (record srv { conns = insert addr object srv.conns }),
)

-- What _create_conn leaves, when there is a socket to make a connection from.
abbrev opened :
    ℕ → Bool → Option (Socket × TcpAddress) → TcpServer → Option TcpConnection × TcpServer
opened object initiated none srv = (none, srv)
opened object initiated (some (incoming, addr)) srv =
    let (conn, srv') = create_conn object incoming addr initiated srv in (some conn, srv')

-- `sock` is the socket if sock.connect returns, and `none` if it raises.
unfoldable pub connect :
    ℕ → Option Socket → TcpAddress → TcpServer → Option TcpConnection × TcpServer
connect object none addr srv = (none, srv)
connect object (some incoming) addr srv = opened object true (some (incoming, addr)) srv

-- One round of the thread that listens; `accepted` is what accept returns, if it does.
unfoldable pub listen_for_conns :
    ℕ → Option (Socket × TcpAddress) → TcpServer → Option TcpConnection × TcpServer
listen_for_conns object accepted srv = opened object false accepted srv

-- _disconnect; nothing can be read from the closed socket.
unfoldable pub close : Bool → TcpConnection × TcpServer → TcpConnection × TcpServer
close initiated (conn, srv) = (
  record conn { connected = false; incoming = [] },
  notify (disconnected_from conn.addr initiated)
      (record srv { conns = remove conn.addr srv.conns }),
)

unfoldable pub disconnect : TcpConnection × TcpServer → TcpConnection × TcpServer
disconnect (conn, srv) = if conn.connected then close true (conn, srv) else (conn, srv)

-- The except block of _recv_loop.
unfoldable pub give_up : TcpConnection × TcpServer → TcpConnection × TcpServer
give_up (conn, srv) = if conn.connected then close false (conn, srv) else (conn, srv)

-- What recv_exact returned, if anything did.
abbrev pub received : Result (Option Bytes) → Option Bytes
received (ok o) = o
received (err e) = none

abbrev pub finish_round : Option Bytes → TcpConnection × TcpServer → TcpConnection × TcpServer
finish_round none s = give_up s
finish_round (some message) (conn, srv) = (conn, notify (message_from conn.addr message) srv)

abbrev pub read_message : Option Bytes → TcpConnection × TcpServer → TcpConnection × TcpServer
read_message none s = give_up s
read_message (some len_bytes) (conn, srv) =
    let (r, sock) = recv_exact (from_bytes 0 len_bytes) conn.incoming in
    finish_round (received r) (record conn { incoming = sock }, srv)

-- One round of _recv_loop.
unfoldable pub recv_round : TcpConnection × TcpServer → TcpConnection × TcpServer
recv_round (conn, srv) =
    let (r, sock) = recv_exact 4 conn.incoming in
    read_message (received r) (record conn { incoming = sock }, srv)

unfoldable pub recv_rounds : ℕ → TcpConnection × TcpServer → TcpConnection × TcpServer
recv_rounds zero s = s
recv_rounds (suc n) s = recv_rounds n (recv_round s)
