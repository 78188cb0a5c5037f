-- ===== src/Receiver/Session.antt =====
-- Every history of a client's receiving side: reads among all that the client does meanwhile.
use quic_ruby.Base.{ℕ, ◌<◌, ◌≡◌, sym, subst, ℤ, Bool, List, [], ◌∷◌, ◌++◌}
use quic_ruby.Ruby.{Value, Numeric, Kwargs}
use quic_ruby.Ngtcp2.{Ngtcp2, SocketPath}
use quic_ruby.Stream.{read_nonblock}
use quic_ruby.Client.State.{Client, bind}
use quic_ruby.Client.Packets.{write_into, read_pkt_body, handle_expiry}
use quic_ruby.Client.Io.{stream, enqueue_on, close_stream, reset_with, opened}
use quic_ruby.Client.Open.{fresh_client}
use quic_ruby.Client.Close.{close}
use quic_ruby.Client.Close.Once.{close-SendsOne}
use quic_ruby.Client.Accept.{accept_stream_nonblock}
use quic_ruby.Receiver.Collects.{Collects, grow, all_delivered}
use quic_ruby.Receiver.History.{returned}
use quic_ruby.Receiver.Steps.{
  read_on, pack_events, start-Collects, opened-Collects, enqueue_on-Collects, write_into-Collects,
  read_on-Collects, reset_with-Collects, close_stream-Collects, read_pkt_body-Collects,
  handle_expiry-Collects, accept-Collects,
}

module _ {Conn : Type 0} (n : Ngtcp2 Conn) where
  -- A run of a client, with the bytes that callbacks delivered to each stream and those that reads
  -- of it returned. ngtcp2 is free to do anything.
  pub data Session : (received consumed : ℕ → List ℕ) → Client Conn → Type 0 where
    starts : (conn : Conn) → Session (λ r. []) (λ r. []) (fresh_client conn)
    binds :
        {f g : ℕ → List ℕ} {c : Client Conn} (is_socket : Bool)
        → Session f g c
        → Session f g (bind c is_socket)
    sends :
        {f g : ℕ → List ℕ} {c : Client Conn} (packet : List ℕ)
        → Session f g c
        → Session f g (record c { sent = c.sent ++ packet ∷ [] })
    opens :
        {f g : ℕ → List ℕ} {c : Client Conn} (conn : Conn) (rv : ℤ) (id : ℕ)
        → Session f g c
        → Session f g (opened n c conn rv id).1
    writes :
        {f g : ℕ → List ℕ} {c : Client Conn} (r : ℕ) (v : Value) (fin : Bool)
        → Session f g c
        → Session f g (enqueue_on c r v fin).1
    packs :
        {f g : ℕ → List ℕ} {c : Client Conn} (now : ℕ)
        → Session f g c
        → Session (all_delivered c.objects (pack_events n c now) f) g (write_into n c now).client
    receives :
        {f g : ℕ → List ℕ} {c : Client Conn} (path : SocketPath) (packet : List ℕ) (now : ℕ)
        → Session f g c
        → Session
            (all_delivered c.objects (n.read_pkt c.conn path packet now).1 f)
            g
            (read_pkt_body n c path packet now).1
    expires :
        {f g : ℕ → List ℕ} {c : Client Conn} (now : ℕ)
        → Session f g c
        → Session
            (all_delivered c.objects (n.handle_expiry c.conn now).1 f)
            g
            (handle_expiry n c now).1
    reads :
        {f g : ℕ → List ℕ} {c : Client Conn} (num : Numeric) (r : ℕ) (v : Value)
        → r < c.objects.next
        → Session f g c
        → Session f (grow g r (returned (read_nonblock num (stream c r) v).0)) (read_on num c r v)
    resets :
        {f g : ℕ → List ℕ} {c : Client Conn} (r code : ℕ)
        → Session f g c
        → Session f g (reset_with n c r code).1
    closes_stream :
        {f g : ℕ → List ℕ} {c : Client Conn} (r : ℕ)
        → Session f g c
        → Session f g (close_stream n c r).1
    accepts :
        {f g : ℕ → List ℕ} {c : Client Conn}
        → Session f g c
        → Session f g (record c { objects = (accept_stream_nonblock c.objects).1 })
    closes :
        {f g : ℕ → List ℕ} {c : Client Conn} (num : Numeric) (opts : Kwargs) (now : ℕ)
        → Session f g c
        → Session f g (close n num c opts now).1

  -- Every stream of every client that can be reached keeps its bytes.
  Session-Collects : {f g : ℕ → List ℕ} {c : Client Conn} → Session f g c → Collects f g c.objects
  Session-Collects (starts conn) = start-Collects n conn
  Session-Collects (binds is_socket past) = Session-Collects past
  Session-Collects (sends packet past) = Session-Collects past
  Session-Collects (opens {c = c} conn rv id past) =
      opened-Collects n c (Session-Collects past) conn rv id
  Session-Collects (writes {c = c} r v fin past) =
      enqueue_on-Collects n c (Session-Collects past) r v fin
  Session-Collects (packs {c = c} now past) = write_into-Collects n c (Session-Collects past) now
  Session-Collects (receives {c = c} path packet now past) =
      read_pkt_body-Collects n c (Session-Collects past) path packet now
  Session-Collects (expires {c = c} now past) =
      handle_expiry-Collects n c (Session-Collects past) now
  Session-Collects (reads {c = c} num r v below past) =
      read_on-Collects n c (Session-Collects past) num r v below
  Session-Collects (resets {c = c} r code past) =
      reset_with-Collects n c (Session-Collects past) r code
  Session-Collects (closes_stream {c = c} r past) =
      close_stream-Collects n c (Session-Collects past) r
  Session-Collects (accepts {c = c} past) = accept-Collects n c (Session-Collects past)
  Session-Collects (closes {f = f} {g = g} {c = c} num opts now past) =
      subst (λ o. Collects f g o) (sym (close-SendsOne n c num opts now).1) (Session-Collects past)

  -- In every history of a client, whatever ngtcp2 does, the bytes that reads of a stream returned,
  -- followed by those in its @recv_buffer, are the bytes of the data callbacks for that stream, in
  -- order: nothing that the client does on this or another stream loses, repeats or mixes them up.
  pub Session-received :
      {f g : ℕ → List ℕ} {c : Client Conn}
      → Session f g c
      → (r : ℕ) → f r ≡ g r ++ (c.objects.cell r).recv_buffer
  Session-received past r = (Session-Collects past).buffered r
