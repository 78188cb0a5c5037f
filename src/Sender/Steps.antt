-- ===== src/Sender/Steps.antt =====
-- The steps of a client other than writing and sending keep every stream's sending invariant.
use quic_ruby.Base.{
  ℕ, refl, ℤ, true, List, [], ◌∷◌, ◌≡◌, subst, arith, inl, inr, Bool-cases, is_zero,
}
use quic_ruby.Ruby.{Value, Numeric}
use quic_ruby.Stream.{read_nonblock, read_bytes, Stream, stream_alloc}
use quic_ruby.Ngtcp2.{Ngtcp2, SocketPath}
use quic_ruby.Client.Objects.{Objects}
use quic_ruby.Client.State.{Client}
use quic_ruby.Client.Packets.{read_pkt_body, handle_expiry}
use quic_ruby.Client.Io.{opened, stream, set_stream}
use quic_ruby.Client.Open.{fresh_client}
use quic_ruby.Ruby.Hash.{aref}
use quic_ruby.Sender.Invariant.{IsSending}
use quic_ruby.Sender.Tracks.{Tracks, store-Tracks, register-Tracks, queue-Tracks}
use quic_ruby.Sender.Callbacks.{ArePermitted, callbacks-Tracks}
use quic_ruby.Client.Io.{reset_with, close_read}
use quic_ruby.Client.Accept.{accept_stream_nonblock, shift_queue}

stream_alloc-IsSending : IsSending [] [] stream_alloc
unfolding stream_alloc
stream_alloc-IsSending = record {
  queued = refl;
  filled = tt;
  shifted_le = omega arith;
  acked_le = omega arith;
  sent_le = omega arith;
  in_order = refl;
  flushed = λ e. cc;
  small = omega arith;
}

module _ {Conn : Type 0} (n : Ngtcp2 Conn) where
  pub start-Tracks : (conn : Conn) → Tracks (λ r. []) (λ r. []) (fresh_client conn).objects
  unfolding fresh_client stream_alloc aref
  start-Tracks conn = record {
    sending = λ r. stream_alloc-IsSending;
    fresh = λ r h. (refl, refl);
    known = λ id r h. absurd (cc h);
    distinct = tt;
  }

  pub opened-Tracks :
      {a f : ℕ → List ℕ} (c : Client Conn) (conn : Conn) (rv : ℤ) (id : ℕ)
      → Tracks a f c.objects
      → Tracks a f (opened n c conn rv id).1.objects
  unfolding opened
  opened-Tracks c conn rv id t = elim (Bool-cases (is_zero rv)) [
    | inl e ↦ rw (opened, e) (register-Tracks t id)
    | inr e ↦ rw (opened, e) t
  ]

  pub read_pkt_body-Tracks :
      {a f : ℕ → List ℕ} (c : Client Conn) (path : SocketPath) (packet : List ℕ) (now : ℕ)
      → ArePermitted c.objects (n.read_pkt c.conn path packet now).1
      → Tracks a f c.objects
      → Tracks a f (read_pkt_body n c path packet now).1.objects
  unfolding read_pkt_body
  read_pkt_body-Tracks c path packet now h t = callbacks-Tracks c.objects _ h t

  pub handle_expiry-Tracks :
      {a f : ℕ → List ℕ} (c : Client Conn) (now : ℕ)
      → ArePermitted c.objects (n.handle_expiry c.conn now).1
      → Tracks a f c.objects
      → Tracks a f (handle_expiry n c now).1.objects
  unfolding handle_expiry
  handle_expiry-Tracks c now h t = callbacks-Tracks c.objects _ h t

  reset_stream-IsSending :
      {a f : List ℕ} {s : Stream} → IsSending a f s → IsSending a f (record s { reset = true })
  reset_stream-IsSending v = record {
    queued = v.queued;
    filled = v.filled;
    shifted_le = v.shifted_le;
    acked_le = v.acked_le;
    sent_le = v.sent_le;
    in_order = v.in_order;
    flushed = v.flushed;
    small = v.small;
  }

  pub reset_with-Tracks :
      {a f : ℕ → List ℕ} (c : Client Conn) (r code : ℕ)
      → Tracks a f c.objects
      → Tracks a f (reset_with n c r code).1.objects
  unfolding reset_with
  reset_with-Tracks c r code t = ground (
    arith,
    t,
    store-Tracks t r (record (stream c r) { reset = true }) (reset_stream-IsSending (t.sending r))
        refl,
  )

  pub close_read-Tracks :
      {a f : ℕ → List ℕ} (c : Client Conn) (r : ℕ)
      → Tracks a f c.objects
      → Tracks a f (close_read n c r).1.objects
  unfolding close_read
  close_read-Tracks c r t = ground (arith, t)

  shift-Tracks :
      {a f : ℕ → List ℕ} (o : Objects) (queue : List ℕ)
      → Tracks a f o
      → Tracks a f (shift_queue o queue).1
  unfolding shift_queue
  shift-Tracks o [] t = t
  shift-Tracks o (r ∷ rest) t = queue-Tracks t rest

  pub accept-Tracks :
      {a f : ℕ → List ℕ} (o : Objects) → Tracks a f o → Tracks a f (accept_stream_nonblock o).1
  unfolding accept_stream_nonblock
  accept-Tracks o t = shift-Tracks o o.accept_queue t

  buffer-IsSending :
      {a f : List ℕ} {s : Stream} (buffer : List ℕ)
      → IsSending a f s
      → IsSending a f (record s { recv_buffer = buffer })
  buffer-IsSending buffer v = record {
    queued = v.queued;
    filled = v.filled;
    shifted_le = v.shifted_le;
    acked_le = v.acked_le;
    sent_le = v.sent_le;
    in_order = v.in_order;
    flushed = v.flushed;
    small = v.small;
  }

  -- A read touches nothing but the buffer.
  pub read_nonblock-buffer :
      (num : Numeric) (s : Stream) (v : Value)
      → record s { recv_buffer = (read_nonblock num s v).1.recv_buffer } ≡ (read_nonblock num s v).1
  unfolding read_nonblock read_bytes
  read_nonblock-buffer num s v = ground arith

  pub read-Tracks :
      {a f : ℕ → List ℕ} (c : Client Conn) (num : Numeric) (r : ℕ) (v : Value)
      → Tracks a f c.objects
      → Tracks a f (set_stream c r (read_nonblock num (stream c r) v).1).objects
  read-Tracks {a} {f} c num r v t =
      subst (λ (s : Stream). Tracks a f (set_stream c r s).objects)
        (read_nonblock-buffer num (stream c r) v)
        (store-Tracks t r _ (buffer-IsSending _ (t.sending r)) refl)
