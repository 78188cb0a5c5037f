-- ===== src/Sender/Run.antt =====
-- Every history of a client: binding a socket, opening streams, writing, reading, sending and receiving
-- packets, timers, resets, accepting, and closing.
use quic_ruby.Base.{
  ℕ, ◌+◌, ◌<◌, ◌≡◌, sym, subst, ℤ, Bool, List, [], ◌∷◌, ◌++◌, length, take, long_limit,
}
use quic_ruby.Ruby.{Value, ok, check_string}
use quic_ruby.Ngtcp2.{Ngtcp2, SocketPath}
use quic_ruby.Client.State.{Client, bind}
use quic_ruby.Client.Packets.{write_into, read_pkt_body, handle_expiry}
use quic_ruby.Client.Io.{enqueue_on, opened, stream, set_stream}
use quic_ruby.Stream.{read_nonblock}
use quic_ruby.Client.Open.{fresh_client}
use quic_ruby.Sender.Tracks.{Tracks}
use quic_ruby.Sender.Callbacks.{ArePermitted}
use quic_ruby.Sender.Packet.{IsHonest, given, answer, framed_by, write_into-Tracks}
use quic_ruby.Sender.Accepted.{accepted_by, enqueue_on-Tracks}
use quic_ruby.Sender.Steps.{
  start-Tracks, opened-Tracks, read_pkt_body-Tracks, handle_expiry-Tracks, reset_with-Tracks,
  close_read-Tracks, accept-Tracks, read-Tracks,
}
use quic_ruby.Client.Io.{reset_with, close_read}
use quic_ruby.Client.Close.{close}
use quic_ruby.Client.Close.Once.{close-SendsOne}
use quic_ruby.Client.Accept.{accept_stream_nonblock}
use quic_ruby.Ruby.{Numeric, Kwargs}

module _ {Conn : Type 0} (n : Ngtcp2 Conn) where
  -- A run of a client, with the bytes accepted and framed for each stream so far. What ngtcp2 does
  -- in a step is what it promises.
  pub data Run : (accepted framed : ℕ → List ℕ) → Client Conn → Type 0 where
    starts : (conn : Conn) → Run (λ r. []) (λ r. []) (fresh_client conn)
    binds :
        {a f : ℕ → List ℕ} {c : Client Conn} (is_socket : Bool)
        → Run a f c
        → Run a f (bind c is_socket)
    opens :
        {a f : ℕ → List ℕ} {c : Client Conn} (conn : Conn) (rv : ℤ) (id : ℕ)
        → Run a f c
        → Run a f (opened n c conn rv id).1
    writes :
        {a f : ℕ → List ℕ} {c : Client Conn} (r : ℕ) (v : Value) (bytes : List ℕ) (fin : Bool)
        → r < c.objects.next
        → check_string v ≡ ok bytes
        → length (a r) + length bytes < long_limit
        → Run a f c
        → Run (accepted_by a r bytes (enqueue_on c r v fin).0) f (enqueue_on c r v fin).1
    packs :
        {a f : ℕ → List ℕ} {c : Client Conn} (now : ℕ)
        → IsHonest c.objects (given n c now) (answer n c now)
        → Run a f c
        → Run a
            (framed_by f c.objects (given n c now) (answer n c now).2)
            (write_into n c now).client
    receives :
        {a f : ℕ → List ℕ} {c : Client Conn} (path : SocketPath) (packet : List ℕ) (now : ℕ)
        → ArePermitted c.objects (n.read_pkt c.conn path packet now).1
        → Run a f c
        → Run a f (read_pkt_body n c path packet now).1
    expires :
        {a f : ℕ → List ℕ} {c : Client Conn} (now : ℕ)
        → ArePermitted c.objects (n.handle_expiry c.conn now).1
        → Run a f c
        → Run a f (handle_expiry n c now).1
    reads :
        {a f : ℕ → List ℕ} {c : Client Conn} (num : Numeric) (r : ℕ) (v : Value)
        → Run a f c
        → Run a f (set_stream c r (read_nonblock num (stream c r) v).1)
    resets :
        {a f : ℕ → List ℕ} {c : Client Conn} (r code : ℕ)
        → Run a f c
        → Run a f (reset_with n c r code).1
    closes_read :
        {a f : ℕ → List ℕ} {c : Client Conn} (r : ℕ) → Run a f c → Run a f (close_read n c r).1
    accepts :
        {a f : ℕ → List ℕ} {c : Client Conn}
        → Run a f c
        → Run a f (record c { objects = (accept_stream_nonblock c.objects).1 })
    closes :
        {a f : ℕ → List ℕ} {c : Client Conn} (num : Numeric) (opts : Kwargs) (now : ℕ)
        → Run a f c
        → Run a f (close n num c opts now).1
    sends :
        {a f : ℕ → List ℕ} {c : Client Conn} (packet : List ℕ)
        → Run a f c
        → Run a f (record c { sent = c.sent ++ packet ∷ [] })

  -- Every stream of every reachable client keeps the sending invariant.
  pub Run-Tracks : {a f : ℕ → List ℕ} {c : Client Conn} → Run a f c → Tracks a f c.objects
  Run-Tracks (starts conn) = start-Tracks n conn
  Run-Tracks (binds is_socket past) = Run-Tracks past
  Run-Tracks (opens {c = c} conn rv id run) = opened-Tracks n c conn rv id (Run-Tracks run)
  Run-Tracks (writes {c = c} r v bytes fin below text small run) =
      enqueue_on-Tracks c r v bytes fin (Run-Tracks run) below text small
  Run-Tracks (packs {c = c} now honest run) = write_into-Tracks n c now (Run-Tracks run) honest
  Run-Tracks (receives {c = c} path packet now permitted run) =
      read_pkt_body-Tracks n c path packet now permitted (Run-Tracks run)
  Run-Tracks (expires {c = c} now permitted run) =
      handle_expiry-Tracks n c now permitted (Run-Tracks run)
  Run-Tracks (reads {c = c} num r v run) = read-Tracks n c num r v (Run-Tracks run)
  Run-Tracks (resets {c = c} r code run) = reset_with-Tracks n c r code (Run-Tracks run)
  Run-Tracks (closes_read {c = c} r run) = close_read-Tracks n c r (Run-Tracks run)
  Run-Tracks (accepts {c = c} run) = accept-Tracks n c.objects (Run-Tracks run)
  Run-Tracks (sends packet run) = Run-Tracks run
  Run-Tracks (closes {a = a} {f = f} {c = c} num opts now run) =
      subst (λ o. Tracks a f o) (sym (close-SendsOne n c num opts now).1) (Run-Tracks run)

  -- In every run of a client in which ngtcp2 does in each step what it promises, and fewer than
  -- 2^63 bytes are written to each stream, the bytes framed for a stream, of the vectors that
  -- ngtcp2 is given with its id, are the bytes that the program wrote to it, in order and up to
  -- `sent_offset`.
  pub Run-framed :
      {a f : ℕ → List ℕ} {c : Client Conn}
      → Run a f c
      → (r : ℕ) → f r ≡ take (c.objects.cell r).sent_offset (a r)
  Run-framed run r = ((Run-Tracks run).sending r).in_order
