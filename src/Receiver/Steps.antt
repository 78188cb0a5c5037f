-- ===== src/Receiver/Steps.antt =====
-- The steps of a client keep what each stream has received.
use quic_ruby.Base.{
  ℕ, ◌<◌, ◌≡◌, refl, sym, subst, inl, inr, ℤ, Bool, true, Option, none, some, List, [], ◌∷◌, arith,
  ==_iff, Bool-cases, is_zero, is_negative,
}
use quic_ruby.Ruby.{Value, Result-cases, Numeric}
use quic_ruby.Ruby.Hash.{aref}
use quic_ruby.Ngtcp2.{Ngtcp2, SocketPath, Event, Written}
use quic_ruby.Stream.{Stream, stream_alloc, enqueue, append_chunk, close_write, read_nonblock}
use quic_ruby.Client.Objects.{Objects}
use quic_ruby.Client.Callbacks.{callbacks}
use quic_ruby.Client.State.{Client}
use quic_ruby.Client.Picker.{Candidate, pick_send_stream}
use quic_ruby.Client.Packets.{
  account, account_picked, writev_args, write_into, read_pkt_body, handle_expiry,
}
use quic_ruby.Client.Io.{
  stream, set_stream, enqueue_on, close_write_on, close_read, close_stream, reset_with, opened,
}
use quic_ruby.Client.Open.{fresh_client}
use quic_ruby.Client.Accept.{accept_stream_nonblock, shift_queue}
use quic_ruby.Receiver.Collects.{
  Collects, grow, all_delivered, store-Collects, change-Collects, register-Collects, queue-Collects,
  callbacks-Collects,
}
use quic_ruby.Receiver.History.{returned, read-IsReceiving}

-- What #read_nonblock on the stream `r` leaves.
abbrev pub read_on : {Conn : Type 0} → Numeric → Client Conn → ℕ → Value → Client Conn
read_on num c r v = set_stream c r (read_nonblock num (stream c r) v).1

account-buffer :
    (s : Stream) (p : Candidate) (w : Written) → (account s p w).recv_buffer ≡ s.recv_buffer
unfolding account
account-buffer s p w = ground arith

pub account_picked-Collects :
    {f g : ℕ → List ℕ} (o : Objects) (picked : Option (ℕ × Candidate)) (w : Written)
    → Collects f g o
    → Collects f g (account_picked o picked w)
unfolding account_picked
account_picked-Collects o none w u = u
account_picked-Collects o (some (r, p)) w u = store-Collects u r _ (account-buffer (o.cell r) p w)

module _ {Conn : Type 0} (n : Ngtcp2 Conn) where
  -- The callbacks that ngtcp2 makes while it writes a packet.
  abbrev pub pack_events : Client Conn → ℕ → List Event
  pack_events c now = (n.writev_stream c.conn (writev_args (pick_send_stream c.objects) now)).1

  pub start-Collects : (conn : Conn) → Collects (λ r. []) (λ r. []) (fresh_client conn).objects
  unfolding fresh_client stream_alloc aref
  start-Collects conn = record {
    buffered = λ r. refl;
    fresh = λ r h. (refl, refl);
    known = λ id r h. absurd (cc h);
    distinct = tt;
  }

  enqueue-buffer :
      (s : Stream) (v : Value) (fin : Bool) → (enqueue s v fin).1.recv_buffer ≡ s.recv_buffer
  unfolding enqueue append_chunk
  enqueue-buffer s v fin = ground arith

  close_write-buffer : (s : Stream) → (close_write s).1.recv_buffer ≡ s.recv_buffer
  unfolding close_write enqueue append_chunk
  close_write-buffer s = ground arith

  close_read-objects : (c : Client Conn) (r : ℕ) → (close_read n c r).1.objects ≡ c.objects
  unfolding close_read
  close_read-objects c r = ground arith

  shift-Collects :
      {f g : ℕ → List ℕ} (o : Objects) (queue : List ℕ)
      → Collects f g o
      → Collects f g (shift_queue o queue).1
  unfolding shift_queue
  shift-Collects o [] t = t
  shift-Collects o (r ∷ rest) t = queue-Collects t rest

  module _ {f g : ℕ → List ℕ} (c : Client Conn) (t : Collects f g c.objects) where
    pub opened-Collects :
        (conn : Conn) (rv : ℤ) (id : ℕ) → Collects f g (opened n c conn rv id).1.objects
    unfolding opened
    opened-Collects conn rv id = elim (Bool-cases (is_zero rv)) [
      | inl e ↦ rw (opened, e) (register-Collects t id)
      | inr e ↦ rw (opened, e) t
    ]

    pub enqueue_on-Collects :
        (r : ℕ) (v : Value) (fin : Bool) → Collects f g (enqueue_on c r v fin).1.objects
    unfolding enqueue_on
    enqueue_on-Collects r v fin = store-Collects t r _ (enqueue-buffer (stream c r) v fin)

    pub write_into-Collects :
        (now : ℕ)
        → Collects
            (all_delivered c.objects (pack_events c now) f)
            g
            (write_into n c now).client.objects
    unfolding write_into
    write_into-Collects now =
        let out = n.writev_stream c.conn (writev_args (pick_send_stream c.objects) now) in
        let called = callbacks-Collects c.objects out.1 t in
        let counted =
          account_picked-Collects (callbacks c.objects out.1) (pick_send_stream c.objects) out.2
            called in
        elim (Bool-cases (is_negative out.2.n)) [
          | inl bad ↦ rw (write_into, bad) called
          | inr good ↦ elim (Bool-cases (is_zero out.2.n)) [
            | inl empty ↦ rw (write_into, good, empty) counted
            | inr full ↦ rw (write_into, good, full) counted
          ]
        ]

    pub read_on-Collects :
        (num : Numeric) (r : ℕ) (v : Value)
        → r < c.objects.next
        → Collects f
            (grow g r (returned (read_nonblock num (stream c r) v).0))
            (read_on num c r v).objects
    unfolding grow
    read_on-Collects num r v below =
        change-Collects t r (read_nonblock num (stream c r) v).1 below
          (rw (grow, (==_iff r r).1 refl)
            (read-IsReceiving (g r) (stream c r) num v (num.num2long v) refl (t.buffered r)))
          (λ q h. (refl, rw (grow, h) refl))

    pub reset_with-Collects : (r code : ℕ) → Collects f g (reset_with n c r code).1.objects
    unfolding reset_with
    reset_with-Collects r code =
        ground (arith, t, store-Collects t r (record (stream c r) { reset = true }) refl)

    pub close_stream-Collects : (r : ℕ) → Collects f g (close_stream n c r).1.objects
    unfolding close_stream close_write_on
    close_stream-Collects r =
        let written = store-Collects t r _ (close_write-buffer (stream c r)) in
        elim (Result-cases (close_write (stream c r)).0) [
          | inl (u, good) ↦
              rw (close_stream, good)
                (subst (λ o. Collects f g o) (sym (close_read-objects (close_write_on c r).1 r))
                  written)
          | inr (x, bad) ↦ rw (close_stream, bad) written
        ]

    pub read_pkt_body-Collects :
        (path : SocketPath) (packet : List ℕ) (now : ℕ)
        → Collects
            (all_delivered c.objects (n.read_pkt c.conn path packet now).1 f)
            g
            (read_pkt_body n c path packet now).1.objects
    unfolding read_pkt_body
    read_pkt_body-Collects path packet now = callbacks-Collects c.objects _ t

    pub handle_expiry-Collects :
        (now : ℕ)
        → Collects
            (all_delivered c.objects (n.handle_expiry c.conn now).1 f)
            g
            (handle_expiry n c now).1.objects
    unfolding handle_expiry
    handle_expiry-Collects now = callbacks-Collects c.objects _ t

    pub accept-Collects : Collects f g (accept_stream_nonblock c.objects).1
    unfolding accept_stream_nonblock
    accept-Collects = shift-Collects c.objects c.objects.accept_queue t
