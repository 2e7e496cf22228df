-- ===== src/Network/Framing.antt =====
-- The bytes of messages that are sent over a connection, and the rounds that read them.
use blockchain_workshop.Prelude.{
  ℕ, zero, suc, ◌+◌, ◌^◌, ◌<◌, [], ◌∷◌, ◌++◌, append_assoc, append-nil, List, ◌≡◌, refl, sym, ap,
  ◌∙◌, inl, inr, true, false, ok, Action, Bytes, All, length, arith,
}
use blockchain_workshop.Prelude.Words.{to_bytes4, from_bytes, from_bytes-to_bytes4}
use blockchain_workshop.Prelude.Dict.{remove}
use blockchain_workshop.Prelude.Actions.{pure, ◌>>◌, >>=-eq-returned}
use blockchain_workshop.Network.Address.{TcpAddress, TcpAddress_eq}
use blockchain_workshop.Network.Socket.{Socket, recv, recv_loop, recv_exact, bytes_of}
use blockchain_workshop.Network.Reading.{recv_exact_lem, recv_exact-prefix}
use blockchain_workshop.Network.Server.{
  TcpConnection, TcpServer, Event, message_from, disconnected_from, notify, send_message, close,
  give_up, recv_round, recv_rounds,
}

-- The messages that a length of four bytes can announce.
abbrev pub IsShort : Bytes → Type 0
IsShort m = length m < 2 ^ 32

unfoldable pub send_all : List Bytes → Action TcpConnection (Unit {0})
send_all [] = pure tt
send_all (m ∷ ms) = send_message m >> send_all ms

-- The events of messages that arrive one after the other.
unfoldable pub arrivals : TcpAddress → List Bytes → List Event → List Event
arrivals addr [] events = events
arrivals addr (m ∷ ms) events = arrivals addr ms (message_from addr m ∷ events)

-- The bytes of one message behind its length.
record Frame (m : Bytes) : Type 0 where
  a : ℕ
  b : ℕ
  c : ℕ
  d : ℕ
  written : to_bytes4 (length m) ≡ ok (a ∷ b ∷ c ∷ d ∷ [])
  read : from_bytes 0 (a ∷ b ∷ c ∷ d ∷ []) ≡ length m

framed : (m : Bytes) → IsShort m → Frame m
framed m h =
    let (a, b, c, d, w, r) = from_bytes-to_bytes4 (length m) h in
    record { a = a; b = b; c = c; d = d; written = w; read = r }

abbrev head_of : {m : Bytes} → Frame m → Bytes
head_of f = f.a ∷ f.b ∷ f.c ∷ f.d ∷ []

-- All messages, each behind its length.
unfoldable frames : (ms : List Bytes) → All IsShort ms → Bytes
frames [] h = []
frames (m ∷ ms) h = head_of (framed m h.0) ++ (m ++ frames ms h.1)

send_message_lem :
    (m : Bytes) (f : Frame m) (conn : TcpConnection)
    → conn.connected ≡ true
    → send_message m conn ≡ (ok tt, record conn { written = conn.written ++ (head_of f ++ m) })
unfolding send_message
send_message_lem m f conn up = rw (up, f.written) refl

send_all_lem :
    (ms : List Bytes) (h : All IsShort ms) (conn : TcpConnection)
    → conn.connected ≡ true
    → send_all ms conn ≡ (ok tt, record conn { written = conn.written ++ frames ms h })
unfolding send_all frames
send_all_lem [] h conn up =
    ap (λ w. (ok tt, record conn { written = w })) (sym (append-nil conn.written))
send_all_lem (m ∷ ms) h conn up =
    let f = framed m h.0 in
    let conn1 = record conn { written = conn.written ++ (head_of f ++ m) } in
    >>=-eq-returned (send_message m) (λ _. send_all ms) conn (send_message_lem m f conn up)
    ∙ send_all_lem ms h.1 conn1 up
    ∙ ap (λ w. (ok tt, record conn { written = w }))
        (append_assoc conn.written (head_of f ++ m) (frames ms h.1)
          ∙ ap (λ x. conn.written ++ x) (append_assoc (head_of f) m (frames ms h.1)))

module _ (m : Bytes) (f : Frame m) (rest : Bytes) (conn : TcpConnection) (srv : TcpServer) where
  -- One round reads one message.
  round_reads :
      bytes_of conn.incoming ≡ head_of f ++ (m ++ rest)
      → (left : Socket) × (recv_round (conn, srv)
          ≡ (record conn { incoming = left }, notify (message_from conn.addr m) srv))
        × (bytes_of left ≡ rest)
  unfolding recv_round
  round_reads e =
      let (sock, run, behind) = recv_exact-prefix (head_of f) (m ++ rest) conn.incoming e in
      let (left, run1, behind1) = recv_exact-prefix m rest sock behind in
      (left, rw (run, f.read, run1) refl, behind1)

-- So many rounds read so many messages.
rounds_read :
    (ms : List Bytes) (h : All IsShort ms) (conn : TcpConnection) (srv : TcpServer)
    → bytes_of conn.incoming ≡ frames ms h
    → (left : Socket) × (recv_rounds (length ms) (conn, srv) ≡ (
      record conn { incoming = left },
      record srv { events = arrivals conn.addr ms srv.events },
    ))
      × (bytes_of left ≡ [])
unfolding frames recv_rounds arrivals notify
rounds_read [] h conn srv e = (conn.incoming, refl, e)
rounds_read (m ∷ ms) h conn srv e =
    let (sock, run, behind) = round_reads m (framed m h.0) (frames ms h.1) conn srv e in
    let (left, run1, behind1) =
      rounds_read ms h.1 (record conn { incoming = sock })
        (record srv { events = message_from conn.addr m ∷ srv.events }) behind in
    (left, ap (recv_rounds (length ms)) run ∙ run1, behind1)

-- A round on a stream that holds nothing more closes the connection.
round_closes :
    (conn : TcpConnection) (srv : TcpServer)
    → conn.connected ≡ true
    → bytes_of conn.incoming ≡ []
    → recv_round (conn, srv) ≡ (
      record conn { connected = false; incoming = [] },
      notify
          (disconnected_from conn.addr false)
          (record srv { conns = remove conn.addr srv.conns }),
    )
unfolding recv_round give_up close
round_closes conn srv up e = elim (recv_exact_lem 4 conn.incoming) [
  | inl (long, left, run, behind) ↦ absurd (omega (arith, ap length e))
  | inr (_, left, run) ↦ rw (run, up) refl
]

-- A closed connection stays as it is.
round_closed :
    (conn : TcpConnection) (srv : TcpServer)
    → conn.connected ≡ false
    → conn.incoming ≡ []
    → recv_round (conn, srv) ≡ (conn, srv)
unfolding recv_round give_up recv_exact recv_loop recv
round_closed conn srv down e = rw (e, down, sym e) refl

pub rounds_closed :
    (n : ℕ) (conn : TcpConnection) (srv : TcpServer)
    → conn.connected ≡ false
    → conn.incoming ≡ []
    → recv_rounds n (conn, srv) ≡ (conn, srv)
unfolding recv_rounds
rounds_closed zero conn srv down e = refl
rounds_closed (suc n) conn srv down e =
    ap (recv_rounds n) (round_closed conn srv down e) ∙ rounds_closed n conn srv down e

rounds_add :
    (n k t : ℕ) (s : TcpConnection × TcpServer)
    → t ≡ n + k
    → recv_rounds t s ≡ recv_rounds k (recv_rounds n s)
unfolding recv_rounds
rounds_add zero k t s e = let h : t ≡ k = omega arith in ap (λ i. recv_rounds i s) h
rounds_add (suc n) k zero s e = absurd (omega arith)
rounds_add (suc n) k (suc t) s e = rounds_add n k t (recv_round s) (omega arith)

rounds_end :
    (k : ℕ) (conn : TcpConnection) (srv : TcpServer)
    → conn.connected ≡ true
    → bytes_of conn.incoming ≡ []
    → recv_rounds (suc k) (conn, srv) ≡ (
      record conn { connected = false; incoming = [] },
      notify
          (disconnected_from conn.addr false)
          (record srv { conns = remove conn.addr srv.conns }),
    )
unfolding recv_rounds
rounds_end k conn srv up e =
    ap (recv_rounds k) (round_closes conn srv up e)
    ∙ rounds_closed k (record conn { connected = false; incoming = [] })
        (notify (disconnected_from conn.addr false)
          (record srv { conns = remove conn.addr srv.conns }))
        refl refl

-- Messages that are each shorter than 4 GiB are sent over an open connection on which nothing was
-- written before, and the other side of it reads the bytes that were written, cut into packets in
-- any way, until the connection closes or fails. After a round of the loop for each message its
-- listeners were told of these messages, each once and in the order of sending; after any number
-- of further rounds they were told besides of one disconnect, with the flag `initiated` false, and
-- of nothing else, and the connection is off the table.
pub sent_messages_arrive :
    (ms : List Bytes) (sender conn : TcpConnection) (srv : TcpServer) (k : ℕ)
    → All IsShort ms
    → sender.connected ≡ true
    → sender.written ≡ []
    → conn.connected ≡ true
    → bytes_of conn.incoming ≡ (send_all ms sender).1.written
    → ((send_all ms sender).0 ≡ ok tt)
      × ((recv_rounds (length ms) (conn, srv)).1
          ≡ record srv { events = arrivals conn.addr ms srv.events })
      × ((recv_rounds (length ms + suc k) (conn, srv)).1 ≡ record srv {
        conns = remove conn.addr srv.conns;
        events = disconnected_from conn.addr false ∷ arrivals conn.addr ms srv.events;
      })
unfolding notify
sent_messages_arrive ms sender conn srv k h up fresh on e =
    let sent = send_all_lem ms h sender up in
    let bytes : bytes_of conn.incoming ≡ frames ms h =
      e ∙ ap (λ r. r.1.written) sent ∙ ap (λ w. w ++ frames ms h) fresh in
    let (left, run, done) = rounds_read ms h conn srv bytes in
    (
      ap (λ r. r.0) sent,
      ap (λ s. s.1) run,
      ap (λ s. s.1)
          (rounds_add (length ms) (suc k) (length ms + suc k) (conn, srv) refl
            ∙ ap (recv_rounds (suc k)) run
            ∙ rounds_end k (record conn { incoming = left })
                (record srv { events = arrivals conn.addr ms srv.events }) on done),
    )
